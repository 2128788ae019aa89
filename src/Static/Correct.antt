-- ===== src/Static/Correct.antt =====
-- src/static/mod.rs: what the command ends with, against what loading each file gave.
use cargo_capslock.Prelude.{
  ◌≡◌, refl, inl, inr, Option, none, some, List, [], ◌∷◌, ◌++◌, append-nil, arith, Text,
  Option-cases, Result, In, subst, ap, ◌∙◌,
}
use cargo_capslock.Functions.Map.{FunctionMap}
use cargo_capslock.Functions.Map.Upsert.{Extends}
use cargo_capslock.Graph.{Arc}
use cargo_capslock.Functions.Build.{Symbolic, FunctionCaps, ToFunction}
use cargo_capslock.Functions.Names.{Error}
use cargo_capslock.Graph.CallGraph.{DiGraphMap}
use cargo_capslock.Static.Bitcode.{
  Module, Call, Bitcode, Added, AddError, upsert_function_map, upsert_call_graph, add_module,
  new_bitcode,
}
use cargo_capslock.Static.Bitcode.Modules.{upsert_function_map-Extends}
use cargo_capslock.Static.Bitcode.Calls.{
  IsWellFormed, add_module-IsWellFormed, add_module_named, add_module_stuck, add_module_done,
}
use cargo_capslock.Static.Run.{Analysed, analyse_from, analyse, new-IsWellFormed}
use cargo_capslock.Static.Refused.{upsert_function_map-err}
use cargo_capslock.Static.Added.{drawn-IsBetween, stuck-IsBetween, upsert_function_map-IsParsable}
use cargo_capslock.Static.Table.{listed_in, upsert_function_map-IsBuilt, empty-IsBuilt}
use cargo_capslock.Static.Arcs.{upsert_call_graph-Draws}
use cargo_capslock.Graph.Drawn.{Draws-more}
use cargo_capslock.Static.Means.{Means, Means-cons}
use cargo_capslock.Static.Meaning.{IsDone, into_report-IsReport}

module _ (petgraph : DiGraphMap) (symbolic : Symbolic) (fc : FunctionCaps) where
  -- A module that is added adds its functions and its calls.
  add_module-IsDone :
      (funs : List ToFunction) (calls : List Call) (module_ : Module) (b : Bitcode petgraph)
      (m : FunctionMap) (g : petgraph.Graph)
      → upsert_function_map symbolic fc module_ b.functions ≡ (m, none)
      → upsert_call_graph petgraph m module_.calls b.call_graph ≡ some g
      → IsDone petgraph symbolic fc funs calls b
      → IsDone petgraph symbolic fc
          (funs ++ listed_in module_)
          (calls ++ module_.calls)
          (record b { functions = m; call_graph = g })
  add_module-IsDone funs calls module_ b m g e p done =
      let ext =
        subst (λ (r : FunctionMap × Option Error). Extends b.functions r.0) e
          (upsert_function_map-Extends symbolic fc module_ b.functions) in
      record {
        built = upsert_function_map-IsBuilt symbolic fc module_ funs b.functions m e done.built;
        drawn =
            upsert_call_graph-Draws petgraph module_.calls calls m b.call_graph g p (
              Draws-more calls b.functions m (petgraph.all_edges b.call_graph) ext.names
                done.drawn);
      }

  new-IsDone : (path : Text) → IsDone petgraph symbolic fc [] [] (new_bitcode petgraph path)
  unfolding new_bitcode
  new-IsDone path = record {
    built = empty-IsBuilt symbolic fc;
    drawn = record {
      sound =
          λ i j w q. absurd (subst (λ (es : List Arc). In (i, j, w) es) petgraph.all_edges-new q);
      complete = λ a b d q. absurd q;
    };
  }

module _ (petgraph : DiGraphMap) (symbolic : Symbolic) (fc : FunctionCaps) where
  -- How the loop goes on after a module.
  abbrev after : List (Result Text Module) → Bitcode petgraph × Added → Analysed
  after rest (b, Added.ok) = analyse_from petgraph symbolic fc rest b
  after rest (b, Added.panicked) = Analysed.panicked
  after rest (b, Added.err e) = Analysed.failed e

  after-cons :
      (loaded : Result Text Module) (rest : List (Result Text Module)) (b : Bitcode petgraph)
      → analyse_from petgraph symbolic fc (loaded ∷ rest) b
        ≡ after rest (add_module petgraph symbolic fc loaded b)
  unfolding analyse_from
  after-cons loaded rest b = by_end (add_module petgraph symbolic fc loaded b)
    where
      by_end :
          (r : Bitcode petgraph × Added)
          → (elim r.1 as (λ _. Analysed) [
            | Added.ok ↦ analyse_from petgraph symbolic fc rest r.0
            | Added.panicked ↦ Analysed.panicked
            | Added.err e ↦ Analysed.failed e
          ])
            ≡ after rest r
      by_end (b', Added.ok) = refl
      by_end (b', Added.panicked) = refl
      by_end (b', Added.err e) = refl

  analyse_from_step :
      (loaded : Result Text Module) (rest : List (Result Text Module)) (b b' : Bitcode petgraph)
      (added : Added)
      → add_module petgraph symbolic fc loaded b ≡ (b', added)
      → analyse_from petgraph symbolic fc (loaded ∷ rest) b ≡ after rest (b', added)
  analyse_from_step loaded rest b b' added e = after-cons loaded rest b ∙ ap (after rest) e

  analyse_from-Means :
      (loaded : List (Result Text Module)) (funs : List ToFunction) (calls : List Call)
      (b : Bitcode petgraph)
      → IsDone petgraph symbolic fc funs calls b
      → IsWellFormed petgraph b
      → Means symbolic fc funs calls loaded (analyse_from petgraph symbolic fc loaded b)
  analyse_from-Means [] funs calls b done wf =
      let (r, e, is) = into_report-IsReport petgraph symbolic fc funs calls b done wf in
      unfold analyse_from in rw e ([], refl, tt, rw (append-nil funs, append-nil calls) is)
  analyse_from-Means (Result.err x ∷ rest) funs calls b done wf =
      rw
        (analyse_from_step (Result.err x) rest b b (Added.err (AddError.load x))
          (unfold add_module in refl))
        ([], Result.err x, rest, refl, tt, refl)
  analyse_from-Means (Result.ok module_ ∷ rest) funs calls b done wf =
      let (m, x) = upsert_function_map symbolic fc module_ b.functions in
      let step = analyse_from_step (Result.ok module_) rest b in
      elim (Option-cases x) [
        | inr (y, e) ↦
            let (t, q, p) = upsert_function_map-err symbolic fc module_ b.functions y e in
            rw (step _ _ (add_module_named petgraph symbolic fc module_ b y e))
              ([], Result.ok module_, rest, refl, tt, (t, y, q, p, refl))
        | inl e ↦
            let whole : upsert_function_map symbolic fc module_ b.functions ≡ (m, none) =
              ground arith in
            let built =
              upsert_function_map-IsBuilt symbolic fc module_ funs b.functions m whole done.built in
            let parsable = upsert_function_map-IsParsable symbolic fc module_ b.functions m whole in
            let listed = funs ++ listed_in module_ in
            elim (Option-cases (upsert_call_graph petgraph m module_.calls b.call_graph)) [
              | inl p ↦
                  let stuck = add_module_stuck petgraph symbolic fc module_ b e p in
                  let unknown =
                    stuck-IsBetween petgraph symbolic fc listed m module_.calls b.call_graph built
                      p in
                  rw (step _ _ stuck)
                    ([], module_, rest, refl, tt, rw (append-nil funs) (parsable, unknown))
              | inr (g, p) ↦
                  let added = add_module_done petgraph symbolic fc module_ b g e p in
                  let between =
                    drawn-IsBetween petgraph symbolic fc listed m module_.calls b.call_graph built g
                      p in
                  rw (step _ _ added) (
                    Means-cons symbolic fc funs calls module_ rest _ (parsable, between)
                      (analyse_from-Means rest listed (calls ++ module_.calls)
                        (record b { functions = m; call_graph = g })
                        (add_module-IsDone petgraph symbolic fc funs calls module_ b m g whole p
                          done)
                        (subst (λ (r : Bitcode petgraph × Added). IsWellFormed petgraph r.0) added
                          (add_module-IsWellFormed petgraph symbolic fc (Result.ok module_) b wf))))
            ]
      ]

  -- What the command ends with, whatever was loaded. Modules are added in turn as long as their names can
  -- be parsed and their calls are between functions that were listed so far, their own included. If every
  -- file is a module that is added, a report is given, of all functions and calls of the modules: each name
  -- has one function, that of the first function with the name; a capability is direct if the mapping lists
  -- it for the name, and a function has it if it is listed for a name that it calls, itself or through
  -- others; edges are those of calls; and the process has what is listed for one of the names. Otherwise
  -- the end is that of the first file that is not added: an error if it could not be loaded or has a
  -- name that cannot be parsed, and a panic if it has a call with a name that no function so far has.
  pub analyse_correct :
      (loaded : List (Result Text Module))
      → Means symbolic fc [] [] loaded (analyse petgraph symbolic fc loaded)
  unfolding analyse
  analyse_correct loaded =
      analyse_from-Means loaded [] [] (new_bitcode petgraph []) (new-IsDone petgraph symbolic fc [])
        (new-IsWellFormed petgraph symbolic fc [])
