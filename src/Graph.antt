-- ===== src/Graph.antt =====
-- src/graph.rs: the call graph, and the capabilities that callers take over from what they call.
pub mod Missing
pub mod Visit
pub mod Ends
pub mod Reach
pub mod Order
pub mod CallGraph
pub mod Drawn
pub mod Pictured
pub mod EdgeList
mod Tests
use cargo_capslock.Prelude.{
  ℕ, zero, suc, ◌+◌, ◌*◌, Bool, true, false, Option, none, some, List, [], ◌∷◌, Ord, if◌then◌else◌,
  ◌>>=◌, length,
}
use cargo_capslock.Collections.OrdMap
use cargo_capslock.Collections.OrdMap.{OrdMap}
use cargo_capslock.Collections.OrdSet
use cargo_capslock.Capslock.Caps.{Capability, capability_ord, variants}
use cargo_capslock.Capslock.Caps.Types.{CapabilityType}
use cargo_capslock.Capslock.Report.{Function, Location, Edge}
use cargo_capslock.Functions.Map.{FunctionMap, get, set_function}

-- An item of petgraph's `all_edges`: the caller, the callee and the weight.
abbrev pub Arc : Type 0
Arc = ℕ × ℕ × Option Location

-- The loop over the capabilities of a callee, on the capabilities of the caller and the flag.
module _ {K V : Type 0} ⦃o : Ord K⦄ (v : V) where
  unfoldable pub insert_missing : List K → OrdMap K V × Bool → OrdMap K V × Bool
  insert_missing [] s = s
  insert_missing (k ∷ ks) (m, changed) =
      insert_missing ks
        (if OrdMap.contains_key k m then (m, changed) else (OrdMap.insert k v m, true))

-- What the body of the loop over the edges does to the caller.
abbrev pub take_over : Function → Function → Bool → OrdMap Capability CapabilityType × Bool
take_over caller callee changed =
    insert_missing CapabilityType.transitive (OrdSet.collect (OrdMap.keys callee.capabilities))
      (caller.capabilities, changed)

-- One round of the loop over the edges; `none` is a panic of `unwrap`.
unfoldable pub visit : Arc → FunctionMap × Bool → Option (FunctionMap × Bool)
visit (a, b, _) (m, changed) = do
  callee ← get b m
  caller ← get a m
  let r = take_over caller callee changed
  some (set_function a (record caller { capabilities = r.0 }) m, r.1)

unfoldable pub sweep : List Arc → FunctionMap × Bool → Option (FunctionMap × Bool)
sweep [] s = some s
sweep (e ∷ es) s = visit e s >>= sweep es

pub data Bubbled : Type 0 where
  done : FunctionMap → Bubbled
  panicked out_of_fuel : Bubbled

-- `while changed`
unfoldable pub bubble_loop : List Arc → ℕ → FunctionMap → Bubbled
bubble_loop es zero m = Bubbled.out_of_fuel
bubble_loop es (suc fuel) m = elim (sweep es (m, false)) [
  | none ↦ Bubbled.panicked
  | some (m', changed) ↦ elim changed [ true ↦ bubble_loop es fuel m' | false ↦ Bubbled.done m' ]
]

-- A round that changes something gives a function a capability that it lacked.
abbrev pub rounds : FunctionMap → ℕ
rounds m = suc (length variants * length m.functions)

-- `CallGraph::bubble_transitive_capabilities`, on the edges of the graph.
unfoldable pub bubble : List Arc → FunctionMap → Bubbled
bubble es m = bubble_loop es (rounds m) m
