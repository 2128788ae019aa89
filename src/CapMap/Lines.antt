-- ===== src/CapMap/Lines.antt =====
-- capslock-cm/src/lib.rs: a written line is read back.
use cargo_capslock.Prelude.{
  ℕ, ◌≡◌, refl, ap, sym, ◌∙◌, Bool, true, false, not, ◌&&◌, some, List, [], ◌∷◌, ◌++◌, map, arith,
  reverse, Text, Result, append_assoc, reverse-append, reverse-reverse,
}
use cargo_capslock.Capslock.Caps.{Capability}
use cargo_capslock.Capslock.Caps.Names.{to_string, from_str-to_string}
use cargo_capslock.CapMap.{
  is_whitespace, is_ascii_whitespace, trim_start, trim_end, trim, push_field, pieces,
  split_ascii_whitespace, starts_with_hash, is_empty, is_skipped, parse_caps, parse_line,
}

-- A text that can stand for a field: it is not empty and has no white space.
abbrev pub is_solid : Text → Bool
is_solid [] = true
is_solid (c ∷ s) = not (is_whitespace c) && is_solid s

abbrev pub is_word : Text → Bool
is_word [] = false
is_word (c ∷ s) = not (is_whitespace c) && is_solid s

-- Fields with a space between.
abbrev pub render : Text → List Text → Text
render w [] = w
render w (v ∷ ws) = w ++ b' ' ∷ render v ws

abbrev pub all_words : List Text → Bool
all_words [] = true
all_words (w ∷ ws) = is_word w && all_words ws

ascii_whitespace : (c : ℕ) → is_whitespace c ≡ false → is_ascii_whitespace c ≡ false
unfolding is_whitespace is_ascii_whitespace
ascii_whitespace c h = ground arith

pieces-solid : (w : Text) → is_solid w ≡ true → pieces w ≡ (w, [])
pieces-solid [] h = refl
pieces-solid (c ∷ w) h = ground (arith, pieces-solid w, ascii_whitespace c)

space_splits : is_ascii_whitespace b' ' ≡ true
unfolding is_ascii_whitespace
space_splits = refl

pieces-append :
    (w s : Text) → is_solid w ≡ true → pieces (w ++ b' ' ∷ s) ≡ (w, split_ascii_whitespace s)
unfolding split_ascii_whitespace
pieces-append [] s h = rw space_splits refl
pieces-append (c ∷ w) s h = ground (arith, pieces-append w s, ascii_whitespace c)

word_solid : (w : Text) → is_word w ≡ true → is_solid w ≡ true
word_solid [] h = refl
word_solid (c ∷ w) h = h

push-word : (w : Text) (ws : List Text) → is_word w ≡ true → push_field w ws ≡ w ∷ ws
push-word [] ws h = cc
push-word (c ∷ w) ws h = refl

split_ascii_whitespace-render :
    (w : Text) (ws : List Text)
    → is_word w ≡ true
    → all_words ws ≡ true
    → split_ascii_whitespace (render w ws) ≡ w ∷ ws
unfolding split_ascii_whitespace
split_ascii_whitespace-render w [] h k = rw (pieces-solid w (word_solid w h)) (push-word w [] h)
split_ascii_whitespace-render w (v ∷ ws) h k = rw (pieces-append w (render v ws) (word_solid w h)) (
    push-word w _ h
    ∙ ap (λ r. w ∷ r) (split_ascii_whitespace-render v ws (ground arith) (ground arith)))

parse_caps-to_string :
    (n : ℕ) (cs : List Capability) → parse_caps n (map to_string cs) ≡ Result.ok cs
unfolding parse_caps
parse_caps-to_string n [] = refl
parse_caps-to_string n (c ∷ cs) = rw (from_str-to_string c, parse_caps-to_string n cs) refl

to_string-word : (c : Capability) → is_word (to_string c) ≡ true
unfolding to_string is_whitespace
to_string-word Capability.unspecified = refl
to_string-word Capability.safe = refl
to_string-word Capability.files = refl
to_string-word Capability.network = refl
to_string-word Capability.runtime = refl
to_string-word Capability.read_system_state = refl
to_string-word Capability.modify_system_state = refl
to_string-word Capability.operating_system = refl
to_string-word Capability.system_calls = refl
to_string-word Capability.arbitrary_execution = refl
to_string-word Capability.cgo = refl
to_string-word Capability.unanalyzed = refl
to_string-word Capability.unsafe_pointer = refl
to_string-word Capability.reflect = refl
to_string-word Capability.exec = refl
to_string-word Capability.dynamic_loading = refl
to_string-word Capability.instrumentation = refl
to_string-word Capability.native_code = refl

all_words-to_string : (cs : List Capability) → all_words (map to_string cs) ≡ true
all_words-to_string [] = refl
all_words-to_string (c ∷ cs) = rw (to_string-word c, all_words-to_string cs) refl

-- A text that begins, or ends, with a character that is no white space.
abbrev Begins : Text → Type 0
Begins s = (c : ℕ) × (rest : Text) × (s ≡ c ∷ rest) × (is_whitespace c ≡ false)

abbrev Ends : Text → Type 0
Ends s = (front : Text) × (c : ℕ) × (s ≡ front ++ c ∷ []) × (is_whitespace c ≡ false)

trim_start-Begins : (s : Text) → Begins s → trim_start s ≡ s
trim_start-Begins s (c, rest, e, h) = rw (e, h) refl

trim_end-Ends : (s : Text) → Ends s → trim_end s ≡ s
trim_end-Ends s (front, c, e, h) =
    let turned : reverse s ≡ c ∷ reverse front = rw e (reverse-append front (c ∷ [])) in
    ap reverse (trim_start-Begins (reverse s) (c, reverse front, turned, h)) ∙ reverse-reverse s

word-Begins : (w s : Text) → is_word w ≡ true → Begins (w ++ s)
word-Begins [] s h = cc
word-Begins (c ∷ w) s h = (c, w ++ s, refl, ground arith)

solid-Ends : (c : ℕ) (w : Text) → is_whitespace c ≡ false → is_solid w ≡ true → Ends (c ∷ w)
solid-Ends c [] h k = ([], c, refl, h)
solid-Ends c (d ∷ w) h k =
    let (front, x, e, q) = solid-Ends d w (ground arith) (ground arith) in
    (c ∷ front, x, ap (λ (t : Text). c ∷ t) e, q)

word-Ends : (w : Text) → is_word w ≡ true → Ends w
word-Ends [] h = cc
word-Ends (c ∷ w) h = solid-Ends c w (ground arith) (ground arith)

Ends-append : (s t : Text) → Ends t → Ends (s ++ t)
Ends-append s t (front, c, e, h) =
    (s ++ front, c, ap (λ (r : Text). s ++ r) e ∙ sym (append_assoc s front (c ∷ [])), h)

render-Ends :
    (w : Text) (ws : List Text) → is_word w ≡ true → all_words ws ≡ true → Ends (render w ws)
render-Ends w [] h k = word-Ends w h
render-Ends w (v ∷ ws) h k =
    let (front, c, e, q) = render-Ends v ws (ground arith) (ground arith) in
    Ends-append w (b' ' ∷ render v ws) (b' ' ∷ front, c, ap (λ (r : Text). b' ' ∷ r) e, q)

render-Begins : (w : Text) (ws : List Text) → is_word w ≡ true → Begins (render w ws)
render-Begins [] ws h = cc
render-Begins (c ∷ w) [] h = (c, w, refl, ground arith)
render-Begins (c ∷ w) (v ∷ ws) h = (c, w ++ b' ' ∷ render v ws, refl, ground arith)

starts_with_hash-render :
    (w : Text) (ws : List Text)
    → is_word w ≡ true
    → starts_with_hash (render w ws) ≡ starts_with_hash w
starts_with_hash-render [] ws h = cc
starts_with_hash-render (c ∷ w) [] h = refl
starts_with_hash-render (c ∷ w) (v ∷ ws) h = refl

trim-render :
    (w : Text) (ws : List Text)
    → is_word w ≡ true
    → all_words ws ≡ true
    → trim (render w ws) ≡ render w ws
unfolding trim
trim-render w ws h k =
    ap trim_end (trim_start-Begins (render w ws) (render-Begins w ws h))
    ∙ trim_end-Ends (render w ws) (render-Ends w ws h k)

is_empty-Begins : (s : Text) → Begins s → is_empty s ≡ false
is_empty-Begins s (c, rest, e, h) = rw e refl

is_skipped-render :
    (w : Text) (ws : List Text)
    → is_word w ≡ true
    → all_words ws ≡ true
    → starts_with_hash w ≡ false
    → is_skipped (render w ws) ≡ false
unfolding is_skipped
is_skipped-render w ws h k q =
    rw
      (
        trim_start-Begins (render w ws) (render-Begins w ws h),
        trim-render w ws h k,
        starts_with_hash-render w ws h,
        q,
        is_empty-Begins (render w ws) (render-Begins w ws h),
      )
      refl

-- A name without white space that does not begin with `#`, and behind it the names of one capability or
-- more with a space between, is a line that is parsed to that name and those capabilities, whatever its
-- number.
pub parse_line-render :
    (n : ℕ) (name : Text) (c : Capability) (cs : List Capability)
    → is_word name ≡ true
    → starts_with_hash name ≡ false
    → parse_line n (render name (map to_string (c ∷ cs))) ≡ Result.ok (some (name, c ∷ cs))
unfolding parse_line
parse_line-render n name c cs h q =
    let ws = map to_string (c ∷ cs) in
    let k = all_words-to_string (c ∷ cs) in
    rw
      (
        is_skipped-render name ws h k q,
        trim-render name ws h k,
        split_ascii_whitespace-render name ws h k,
        parse_caps-to_string n (c ∷ cs),
      )
      refl
