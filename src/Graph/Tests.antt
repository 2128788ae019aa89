-- ===== src/Graph/Tests.antt =====
-- src/graph.rs: the graph of the test `bubble`, and the properties of the loop at it.
use cargo_capslock.Prelude.{
  ℕ, ◌≡◌, refl, inl, inr, none, List, [], ◌∷◌, arith, Text, codes, In, All,
}
use cargo_capslock.Collections.OrdMap.{OrdMap}
use cargo_capslock.Capslock.Caps.{Capability}
use cargo_capslock.Capslock.Caps.Types.{CapabilityType}
use cargo_capslock.Capslock.Report.{Function, FunctionName, RustFunctionName}
use cargo_capslock.Functions.Map.{FunctionMap, get, set_function}
use cargo_capslock.Graph.{Arc, visit, sweep, bubble, bubble_loop, Bubbled, insert_missing}
use cargo_capslock.Graph.Ends.{IsWithin}
use cargo_capslock.Graph.Visit.{type_at}
use cargo_capslock.Graph.Reach.{IsBubbled, bubble_correct}
use cargo_capslock.Graph.Order.{bubble_order}

abbrev pub test_function : Text → OrdMap Capability CapabilityType → Function
test_function name caps = record {
  name = FunctionName.rust name (RustFunctionName.bare name);
  location = none;
  capabilities = caps;
  syscalls = [];
}

abbrev pub direct_exec : OrdMap Capability CapabilityType
direct_exec = (Capability.arbitrary_execution, CapabilityType.direct) ∷ []

abbrev pub transitive_exec : OrdMap Capability CapabilityType
transitive_exec = (Capability.arbitrary_execution, CapabilityType.transitive) ∷ []

abbrev named_ids : OrdMap Text ℕ
named_ids = (codes "a", 0) ∷ (codes "b", 1) ∷ (codes "c", 2) ∷ (codes "d", 3) ∷ (codes "e", 4) ∷ []

abbrev with_caps : OrdMap Capability CapabilityType → OrdMap Capability CapabilityType → FunctionMap
with_caps of_a of_b = record {
  functions =
      test_function (codes "a") of_a
      ∷ test_function (codes "b") of_b
      ∷ test_function (codes "c") []
      ∷ test_function (codes "d") direct_exec
      ∷ test_function (codes "e") []
      ∷ [];
  ids = named_ids;
}

abbrev before : FunctionMap
before = with_caps [] []

abbrev after : FunctionMap
after = with_caps transitive_exec transitive_exec

abbrev calls : List Arc
calls = (0, 1, none) ∷ (1, 3, none) ∷ (0, 2, none) ∷ (2, 4, none) ∷ []

abbrev calls_back : List Arc
calls_back = (2, 4, none) ∷ (0, 2, none) ∷ (1, 3, none) ∷ (0, 1, none) ∷ []

-- The test `bubble`.
bubble_run : bubble calls before ≡ Bubbled.done after
unfolding bubble bubble_loop sweep visit get set_function insert_missing
bubble_run = refl

bubble_run_back : bubble calls_back before ≡ Bubbled.done after
unfolding bubble bubble_loop sweep visit get set_function insert_missing
bubble_run_back = refl

calls-IsWithin : All (IsWithin 5) calls
calls-IsWithin = ground arith

bubble_correct_example :
    (m' : FunctionMap) × (bubble calls before ≡ Bubbled.done m') × IsBubbled calls before m'
bubble_correct_example = bubble_correct calls before calls-IsWithin

same_calls : (e : Arc) → In e calls → In e calls_back
same_calls e (inl q) = inr (inr (inr (inl q)))
same_calls e (inr (inl q)) = inr (inr (inl q))
same_calls e (inr (inr (inl q))) = inr (inl q)
same_calls e (inr (inr (inr (inl q)))) = inl q
same_calls e (inr (inr (inr (inr q)))) = absurd q

same_calls_back : (e : Arc) → In e calls_back → In e calls
same_calls_back e (inl q) = inr (inr (inr (inl q)))
same_calls_back e (inr (inl q)) = inr (inr (inl q))
same_calls_back e (inr (inr (inl q))) = inr (inl q)
same_calls_back e (inr (inr (inr (inl q)))) = inl q
same_calls_back e (inr (inr (inr (inr q)))) = absurd q

bubble_order_example :
    type_at after 0 Capability.arbitrary_execution ≡ type_at after 0 Capability.arbitrary_execution
bubble_order_example =
    bubble_order calls calls_back before after after same_calls same_calls_back bubble_run
      bubble_run_back 0 Capability.arbitrary_execution
