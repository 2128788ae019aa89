-- ===== src/Runtime/Events/Frames.antt =====
-- src/runtime/mod.rs: the names that the frames of a stack show, against the walk over them.
use cargo_capslock.Prelude.{
  ℕ, ◌==◌, ◌+◌, ◌≡◌, refl, sym, ◌∙◌, ap, inl, inr, Bool, true, false, Bool-cases, not, ◌&&◌, ◌||◌,
  if◌then◌else◌, Option, none, some, Option-cases, List, [], ◌∷◌, ◌++◌, append_assoc, append-nil,
  Text, text_ord, beq,
}
use cargo_capslock.Collections.OrdSet.{OrdSet}
use cargo_capslock.Capslock.Caps.{Capability}
use cargo_capslock.Runtime.Events.{Frame, Walk, frame_name, is_start, walk}

-- A stack that is recorded: the capabilities of its syscall, the syscall if it is to be included, and
-- its names, the innermost first.
abbrev pub Trace : Type 0
Trace = OrdSet Capability × Option Text × List Text

-- The name of a frame whose instruction pointer stands at the offset of the name from the start of its
-- procedure, where all three are known.
abbrev pub named_at : Option ℕ → Option (Text × ℕ) → Option ℕ → List Text
named_at none _ _ = []
named_at (some ip) none _ = []
named_at (some ip) (some _) none = []
named_at (some ip) (some (name, offset)) (some start) =
    if ip == start + offset then name ∷ [] else []

abbrev pub named : Frame → List Text
named f = named_at f.ip f.name f.start_ip

-- The names that the frames show, in the order of the frames.
abbrev pub names_of : List Frame → List Text
names_of [] = []
names_of (f ∷ fs) = named f ++ names_of fs

abbrev pub has_ip : Option ℕ → Bool
has_ip none = false
has_ip (some _) = true

abbrev pub is_name : Text → List Text → Bool
is_name after [] = false
is_name after (name ∷ names) = beq name after || is_name after names

abbrev pub has_start : Option Text → List Text → Bool
has_start none names = false
has_start (some after) names = is_name after names

-- Every frame has an instruction pointer, and none shows the start symbol.
abbrev pub is_whole : Option Text → List Frame → Bool
is_whole start [] = true
is_whole start (f ∷ fs) =
    let rest = is_whole start fs in has_ip f.ip && not (has_start start (named f)) && rest

-- What is recorded of the frames of a stack: nothing while the process waits for its start symbol, or
-- where the stack is not whole.
abbrev pub of_frames :
    Bool → Option Text → OrdSet Capability → Option Text → List Frame → List Text → List Trace
of_frames true start caps call frames before = []
of_frames false start caps call frames before =
    if is_whole start frames then (caps, call, before ++ names_of frames) ∷ [] else []

-- What is recorded by the end of a walk.
abbrev pub of_walk : Bool → OrdSet Capability → Option Text → Walk → List Trace
of_walk waiting caps call Walk.unreadable = []
of_walk waiting caps call Walk.at_start = []
of_walk waiting caps call (Walk.finished names) = if waiting then [] else (caps, call, names) ∷ []

-- A frame with an instruction pointer shows what `frame_name` gives.
abbrev shown_as : Option Text → List Text
shown_as none = []
shown_as (some name) = name ∷ []

frame_name-named :
    (name : Option (Text × ℕ)) (start_ip : Option ℕ) (ip : ℕ)
    → named_at (some ip) name start_ip
      ≡ shown_as (frame_name (record { ip = some ip; name = name; start_ip = start_ip }) ip)
unfolding frame_name
frame_name-named none start_ip ip = refl
frame_name-named (some _) none ip = refl
frame_name-named (some (name, offset)) (some start) ip = elim (Bool-cases (ip == start + offset)) [
  | inl e ↦ rw e refl
  | inr e ↦ rw e refl
]

nothing-has_start : (start : Option Text) → has_start start [] ≡ false
nothing-has_start none = refl
nothing-has_start (some after) = refl

is_start-has_start :
    (start : Option Text) (name : Text) → has_start start (name ∷ []) ≡ is_start start name
is_start-has_start none name = refl
is_start-has_start (some after) name = elim (Bool-cases (beq name after)) [
  | inl e ↦ rw e refl
  | inr e ↦ rw e refl
]

frame-named :
    (f : Frame) (ip : ℕ) → named_at (some ip) f.name f.start_ip ≡ shown_as (frame_name f ip)
unfolding frame_name
frame-named f ip = frame_name-named f.name f.start_ip ip

waiting-of_walk :
    (caps : OrdSet Capability) (call : Option Text) (w : Walk) → of_walk true caps call w ≡ []
waiting-of_walk caps call Walk.unreadable = refl
waiting-of_walk caps call Walk.at_start = refl
waiting-of_walk caps call (Walk.finished names) = refl

module _ (start : Option Text) (caps : OrdSet Capability) (call : Option Text) where
  walk-is_whole :
      (frames : List Frame) (before : List Text)
      → of_walk false caps call (walk start frames before)
        ≡ of_frames false start caps call frames before
  unfolding walk
  walk-is_whole [] before = ap (λ (ns : List Text). (caps, call, ns) ∷ []) (sym (append-nil before))
  walk-is_whole (f ∷ fs) before = elim (Option-cases f.ip) [
    | inl e ↦ rw (e, walk) refl
    | inr (ip, e) ↦
        let shows = frame-named f ip in
        elim (Option-cases (frame_name f ip)) [
          | inl n ↦
              let none_named : named_at (some ip) f.name f.start_ip ≡ [] = shows ∙ ap shown_as n in
              rw (e, n, walk, none_named) (rw (nothing-has_start start) (walk-is_whole fs before))
          | inr (name, n) ↦
              let one_named : named_at (some ip) f.name f.start_ip ≡ name ∷ [] =
                shows ∙ ap shown_as n in
              elim (Bool-cases (is_start start name)) [
                | inl at ↦
                    let at_start = is_start-has_start start name ∙ at in
                    rw (e, n, at, walk, one_named, at_start) refl
                | inr past ↦
                    let no_start = is_start-has_start start name ∙ past in
                    rw (e, n, past, walk, one_named, no_start)
                      (rw (← append_assoc before (name ∷ []) (names_of fs))
                        (walk-is_whole fs (before ++ name ∷ [])))
              ]
        ]
  ]

-- The walk over the frames comes to what they show.
pub walk-of_frames :
    (start : Option Text) (caps : OrdSet Capability) (call : Option Text) (frames : List Frame)
    (waiting : Bool)
    → of_walk waiting caps call (walk start frames []) ≡ of_frames waiting start caps call frames []
walk-of_frames start caps call frames true = waiting-of_walk caps call (walk start frames [])
walk-of_frames start caps call frames false = walk-is_whole start caps call frames []
