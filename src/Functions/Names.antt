-- ===== src/Functions/Names.antt =====
-- src/function.rs: the names of functions, from their mangled names.
pub mod Parse
use cargo_capslock.Prelude.{
  Option, none, some, Bool, true, false, Text, codes, if◌then◌else◌, not, ◌&&◌, strip_prefix,
  split_once, rsplit_once, ends_with, Result, ok_or, and_then, [], ◌∷◌,
}
use cargo_capslock.Capslock.Report.{FunctionName, RustFunctionName}

pub data Error : Type 0 where
  demangle malformed_method malformed_trait_method : Text → Error

-- The separators that the parser looks for.
abbrev pub less : Text
less = codes "<"

abbrev pub as_word : Text
as_word = codes " as "

abbrev pub close_colons : Text
close_colons = codes ">::"

abbrev pub colons : Text
colons = codes "::"

-- `<type as trait>::method`, of the split of what stands behind ` as `.
abbrev pub trait_of : Text → Text → Option (Text × Text) → Result Error RustFunctionName
trait_of function type_ none = Result.err (Error.malformed_trait_method function)
trait_of function type_ (some (trait_, method)) =
    Result.ok (RustFunctionName.trait_method trait_ type_ method)

-- `<type>::method`
abbrev pub struct_of : Text → Option (Text × Text) → Result Error RustFunctionName
struct_of function none = Result.err (Error.malformed_method function)
struct_of function (some (type_, method)) = Result.ok (RustFunctionName.struct_method type_ method)

-- The text behind `<`.
unfoldable pub parse_qualified : Text → Result Error RustFunctionName
parse_qualified function = elim (split_once as_word function) [
  | some (type_, rem) ↦ trait_of function type_ (rsplit_once close_colons rem)
  | none ↦ struct_of function (rsplit_once close_colons function)
]

-- `type::method`, or the whole text.
abbrev pub plain_of : Text → Option (Text × Text) → RustFunctionName
plain_of function none = RustFunctionName.bare function
plain_of function (some (type_, method)) = RustFunctionName.struct_method type_ method

unfoldable pub parse_plain : Text → RustFunctionName
parse_plain function =
    if not (ends_with b'>' function)
    then plain_of function (rsplit_once colons function)
    else RustFunctionName.bare function

-- `parse_rust_function_name`
unfoldable pub parse_rust_function_name : Text → Result Error RustFunctionName
unfolding parse_qualified parse_plain
parse_rust_function_name function = elim (strip_prefix less function) [
  | some rest ↦ parse_qualified rest
  | none ↦ Result.ok (parse_plain function)
]
