-- ===== src/Graph/Visit.antt =====
-- src/graph.rs: one edge. What it changes, and that it cannot panic on an edge between known functions.
use cargo_capslock.Prelude.{
  ℕ, ◌<◌, ◌≡◌, refl, Bool, true, false, Option, none, some, List, [], arith, ◌==◌, if◌then◌else◌,
  is_some, length, get_elem?-set, set-get_elem?, get_elem?-some, length-set, lt-length,
  Option-cases, inl, inr, ap, ◌∙◌, Text,
}
use cargo_capslock.Collections.OrdMap
use cargo_capslock.Collections.OrdSet
use cargo_capslock.Collections.OrdSet.{OrdSet}
use cargo_capslock.Capslock.Caps.{Capability, capability_ord}
use cargo_capslock.Capslock.Caps.Types.{CapabilityType}
use cargo_capslock.Capslock.Report.{Function, FunctionName, Location}
use cargo_capslock.Functions.Map.{FunctionMap, get, set_function}
use cargo_capslock.Graph.{take_over, visit}
use cargo_capslock.Graph.Missing.{
  fill, lookup-insert_missing, insert_missing-IsSorted, insert_missing-false,
}

-- The type under which a function of the map has a capability.
abbrev pub type_in : Option Function → Capability → Option CapabilityType
type_in none c = none
type_in (some f) c = OrdMap.lookup c f.capabilities

unfoldable pub type_at : FunctionMap → ℕ → Capability → Option CapabilityType
type_at m i c = type_in (get i m) c

abbrev pub callee_caps : Function → List Capability
callee_caps callee = OrdSet.collect (OrdMap.keys callee.capabilities)

-- The caller with what it takes over.
abbrev pub taken : Function → Function → Bool → Function
taken caller callee changed = record caller { capabilities = (take_over caller callee changed).0 }

-- The map after an edge between two functions that it has.
abbrev pub visited : ℕ → Function → Function → FunctionMap → Bool → FunctionMap × Bool
visited a caller callee m changed =
    let r = take_over caller callee changed in
    (set_function a (record caller { capabilities = r.0 }) m, r.1)

pub visit-some :
    (a b : ℕ) (w : Option Location) (caller callee : Function) (m : FunctionMap) (changed : Bool)
    → get a m ≡ some caller
    → get b m ≡ some callee
    → visit (a, b, w) (m, changed) ≡ some (visited a caller callee m changed)
unfolding visit
visit-some a b w caller callee m changed ha hb = rw (hb, ha) refl

pub visit-inv :
    (a b : ℕ) (w : Option Location) (m : FunctionMap) (changed : Bool) (s : FunctionMap × Bool)
    → visit (a, b, w) (m, changed) ≡ some s
    → (caller : Function) × (callee : Function) × (get a m ≡ some caller)
      × (get b m ≡ some callee)
      × (s ≡ visited a caller callee m changed)
unfolding visit
visit-inv a b w m changed s h = elim (Option-cases (get b m)) [
  | inl e ↦ ground arith
  | inr (callee, hb) ↦ elim (Option-cases (get a m)) [
    | inl e ↦ ground arith
    | inr (caller, ha) ↦ (caller, callee, ha, hb, ground arith)
  ]
]

pub visit_total :
    (a b : ℕ) (w : Option Location) (m : FunctionMap) (changed : Bool)
    → a < length m.functions
    → b < length m.functions
    → (s : FunctionMap × Bool) × (visit (a, b, w) (m, changed) ≡ some s)
visit_total a b w m changed ha hb =
    let (caller, ea) = get_elem?-some m.functions a ha in
    let (callee, eb) = get_elem?-some m.functions b hb in
    (
      visited a caller callee m changed,
      visit-some a b w caller callee m changed (unfold get in ea) (unfold get in eb),
    )

-- All of a function but its capabilities.
abbrev pub rest_of : Option Function → Option (FunctionName × Option Location × OrdSet Text)
rest_of none = none
rest_of (some f) = some (f.name, f.location, f.syscalls)

-- Only capabilities differ.
pub record Keeps (m m' : FunctionMap) : Type 0 where
  pub ids : m'.ids ≡ m.ids
  pub size : length m'.functions ≡ length m.functions
  pub others : (i : ℕ) → rest_of (get i m') ≡ rest_of (get i m)
  pub sorted :
      ((i : ℕ) (f : Function) → get i m ≡ some f → OrdMap.IsSorted f.capabilities)
      → (i : ℕ) (f : Function) → get i m' ≡ some f
      → OrdMap.IsSorted f.capabilities

pub Keeps-refl : (m : FunctionMap) → Keeps m m
Keeps-refl m = record { ids = refl; size = refl; others = λ i. refl; sorted = λ h. h }

pub Keeps-trans : (m m' m'' : FunctionMap) → Keeps m m' → Keeps m' m'' → Keeps m m''
Keeps-trans m m' m'' h k = record {
  ids = k.ids ∙ h.ids;
  size = k.size ∙ h.size;
  others = λ i. k.others i ∙ h.others i;
  sorted = λ s. k.sorted (h.sorted s);
}

rest_of-inv :
    (o : Option Function) (old : Function)
    → rest_of o ≡ rest_of (some old)
    → (f : Function) × (o ≡ some f)
      × (f.name ≡ old.name)
      × (f.location ≡ old.location)
      × (f.syscalls ≡ old.syscalls)
rest_of-inv none old h = cc
rest_of-inv (some f) old h = (f, refl, ground arith, ground arith, ground arith)

-- A function that was there is there, with its name, its location and its syscalls.
pub Keeps-function :
    (m m' : FunctionMap) (i : ℕ) (old : Function)
    → Keeps m m'
    → get i m ≡ some old
    → (f : Function) × (get i m' ≡ some f)
      × (f.name ≡ old.name)
      × (f.location ≡ old.location)
      × (f.syscalls ≡ old.syscalls)
Keeps-function m m' i old kept h = rest_of-inv (get i m') old (kept.others i ∙ ap rest_of h)

get-set_function :
    (a i : ℕ) (f : Function) (m : FunctionMap)
    → a < length m.functions
    → get i (set_function a f m) ≡ (if i == a then some f else get i m)
unfolding get set_function
get-set_function a i f m h = get_elem?-set m.functions a i f h

set_function-get :
    (a : ℕ) (f : Function) (m : FunctionMap) → get a m ≡ some f → set_function a f m ≡ m
unfolding get set_function
set_function-get a f m h = λ i. record m { functions = set-get_elem? m.functions a f h i }

contains-collect-keys :
    (c : Capability) (f : Function)
    → OrdSet.contains c (OrdSet.collect (OrdMap.keys f.capabilities))
      ≡ is_some (OrdMap.lookup c f.capabilities)
contains-collect-keys c f =
    OrdSet.contains-extend c [] (OrdMap.keys f.capabilities) ∙ OrdMap.contains-keys c f.capabilities

module _ (a b : ℕ) (caller callee : Function) (m : FunctionMap) (changed : Bool)
    (ha : get a m ≡ some caller) (hb : get b m ≡ some callee) where
  in_range : a < length m.functions
  unfolding get
  in_range = lt-length m.functions a ha

  pub type_at-visited :
      (i : ℕ) (c : Capability)
      → type_at (visited a caller callee m changed).0 i c ≡ (
          if i == a
          then fill CapabilityType.transitive (type_at m a c) (is_some (type_at m b c))
          else type_at m i c)
  unfolding type_at
  type_at-visited i c = ground (
    arith,
    get-set_function a i (taken caller callee changed) m in_range,
    lookup-insert_missing CapabilityType.transitive c (callee_caps callee) caller.capabilities
        changed,
    contains-collect-keys c callee,
  )

  pub visited-Keeps : Keeps m (visited a caller callee m changed).0
  visited-Keeps = record {
    ids = unfold set_function in refl;
    size = unfold set_function in length-set m.functions a (taken caller callee changed);
    others = λ i. ground (arith, get-set_function a i (taken caller callee changed) m in_range);
    sorted = λ h i f e. ground (
      arith,
      get-set_function a i (taken caller callee changed) m in_range,
      h i f,
      insert_missing-IsSorted CapabilityType.transitive (callee_caps callee) caller.capabilities
          changed (h a caller ha),
    );
  }

  -- With the flag still down nothing has changed, and the caller lacked nothing.
  pub visited_quiet :
      (visited a caller callee m changed).1 ≡ false
      → ((visited a caller callee m changed).0 ≡ m)
        × (changed ≡ false)
        × ((c : Capability) → is_some (type_at m b c) ≡ true → is_some (type_at m a c) ≡ true)
  visited_quiet h =
      let (same, down) =
        insert_missing-false CapabilityType.transitive (callee_caps callee) caller.capabilities
          changed h in
      let back = set_function-get a caller m ha in
      let unchanged : (visited a caller callee m changed).0 ≡ m = ground arith in
      (
        unchanged,
        down,
        λ c p.
            ground (arith, ap (λ (x : FunctionMap). type_at x a c) unchanged, type_at-visited a c),
      )
