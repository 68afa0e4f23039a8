-- ===== src/RunManager/Graphs/Cached.antt =====
-- What the cache of `load_graph` holds.
use Prim.Native.Char.{Char}
use fastapi_langgraph_templa.Common.{
  String, str_eq, eq_iff, ◌≡◌, ◌≢◌, refl, ap, sym, ◌∙◌, subst, List, [], ◌∷◌, Option, none, some,
  Bool, true, ◌&&◌, not, all, filter, All, ◌⊎◌, inl, inr, Bool-cases, Option-cases, arith,
}
use fastapi_langgraph_templa.Common.Chars.{chars}
use fastapi_langgraph_templa.Common.Dict.{lookup, put, lookup-put, lookup-put_other}
use fastapi_langgraph_templa.Graph.{AgentDefinition, CompiledGraph}
use fastapi_langgraph_templa.Graph.Validator.{Check, valid, invalid, validate_graph}
use fastapi_langgraph_templa.Graph.Compiler.{
  Compiled, compiled, rejected, compile_graph, compile_checked, build,
}
use fastapi_langgraph_templa.RunManager.Graphs.{
  Read, definition, read_value_error, read_exception, LoadEnd, loaded, is_joint, some_all,
  is_graph_name, path_of, Cache, store, read_file, from_file, load_graph,
}

module _ (is_alnum : Char → Bool) where
  -- the name has only letters, digits, dashes and underscores: no slash and no dot
  abbrev pub IsPlain : String → Type 0
  IsPlain name = All (λ c. (is_alnum c ≡ true) ⊎ (is_joint c ≡ true)) (chars name)

  all_of_filter :
      (cs : List Char)
      → all is_alnum (filter (λ c. not (is_joint c)) cs) ≡ true
      → All (λ c. (is_alnum c ≡ true) ⊎ (is_joint c ≡ true)) cs
  all_of_filter [] h = tt
  all_of_filter (c ∷ cs) h = elim (Bool-cases (is_joint c)) [
    | inl joint ↦ (inr joint, all_of_filter cs (rw joint at h))
    | inr other ↦
        let h' : is_alnum c && all is_alnum (filter (λ x. not (is_joint x)) cs) ≡ true =
          rw other at h in
        (inl (ground arith), all_of_filter cs (ground arith))
  ]

  some_all-all : (cs : List Char) → some_all is_alnum cs ≡ true → all is_alnum cs ≡ true
  some_all-all [] h = refl
  some_all-all (c ∷ cs) h = h

  is_graph_name-IsPlain : (name : String) → is_graph_name is_alnum name ≡ true → IsPlain name
  is_graph_name-IsPlain name h = all_of_filter (chars name) (some_all-all _ h)

  -- a valid graph under a plain name
  abbrev pub IsStored : String → CompiledGraph → Type 0
  IsStored name g =
      IsPlain name × ((d : AgentDefinition) × (g ≡ build d) × (validate_graph d ≡ valid))

  -- the graphs that a Run manager has loaded
  abbrev pub IsCache : Cache → Type 0
  IsCache cache = (name : String) (g : CompiledGraph) → lookup name cache ≡ some g → IsStored name g

  checked_valid :
      (d : AgentDefinition) (c : Check) (g : CompiledGraph)
      → compile_checked d c ≡ compiled g
      → (c ≡ valid) × (build d ≡ g)
  checked_valid d valid g h = (refl, ground arith)
  checked_valid d (invalid fault) g h = ground arith

  compiled-IsStored :
      (name : String) (d : AgentDefinition) (g : CompiledGraph)
      → IsPlain name
      → compile_graph d ≡ compiled g
      → IsStored name g
  unfolding compile_graph
  compiled-IsStored name d g plain h =
      let (is, built) = checked_valid d (validate_graph d) g h in (plain, (d, sym built, is))

  put-IsCache :
      (name : String) (g : CompiledGraph) (cache : Cache)
      → IsStored name g
      → IsCache cache
      → IsCache (put name g cache)
  put-IsCache name g cache new old k u h = elim (Bool-cases (str_eq name k)) [
    | inl e ↦
        let same : name ≡ k = (eq_iff name k).0 e in
        let there : lookup k (put name g cache) ≡ some g =
          subst (λ x. lookup x (put name g cache) ≡ some g) same (lookup-put name g cache) in
        let is : g ≡ u = cc (there, h) in subst (IsStored k) is (subst (λ x. IsStored x g) same new)
    | inr e ↦ old k u (sym (lookup-put_other name k g cache e) ∙ h)
  ]

  -- what a load of `name` leaves of the cache before: a graph more, if it is the one that was loaded
  abbrev pub Grown : String → Cache → Cache × LoadEnd → Type 0
  Grown name cache (cache', ended) =
      ((g : CompiledGraph) × IsStored name g × (cache' ≡ put name g cache) × (ended ≡ loaded g))
      ⊎ ((cache' ≡ cache) × ((g : CompiledGraph) → ended ≢ loaded g))

  store-Grown :
      (name : String) (d : AgentDefinition) (c : Compiled) (cache : Cache)
      → IsPlain name
      → compile_graph d ≡ c
      → Grown name cache (store name c cache)
  store-Grown name d (compiled g) cache plain e =
      inl (g, compiled-IsStored name d g plain e, refl, refl)
  store-Grown name d (rejected fault) cache plain e = inr (refl, λ g h. ground arith)

  read_file-Grown :
      (name : String) (o : Option Read) (cache : Cache)
      → IsPlain name
      → Grown name cache (read_file name o cache)
  read_file-Grown name none cache plain = inr (refl, λ g h. ground arith)
  read_file-Grown name (some (definition d)) cache plain =
      store-Grown name d (compile_graph d) cache plain refl
  read_file-Grown name (some (read_value_error message)) cache plain =
      inr (refl, λ g h. ground arith)
  read_file-Grown name (some (read_exception message)) cache plain = inr (refl, λ g h. ground arith)

  module _ (graphs_dir : String) where
    from_file-Grown :
        (files : String → Option Read) (name : String) (cache : Cache)
        → Grown name cache (from_file is_alnum graphs_dir files name cache)
    from_file-Grown files name cache = elim (Bool-cases (is_graph_name is_alnum name)) [
      | inl is ↦ rw is (
          read_file-Grown name (files (path_of graphs_dir name)) cache
            (is_graph_name-IsPlain name is))
      | inr other ↦ rw other (inr (refl, λ g h. ground arith))
    ]

    load_graph-Grown :
        (files : String → Option Read) (name : String) (cache : Cache)
        → ((g : CompiledGraph) × (lookup name cache ≡ some g)
            × (load_graph is_alnum graphs_dir files name cache ≡ (cache, loaded g)))
          ⊎ ((lookup name cache ≡ none)
              × Grown name cache (load_graph is_alnum graphs_dir files name cache))
    unfolding load_graph
    load_graph-Grown files name cache = elim (Option-cases (lookup name cache)) [
      | inl absent ↦ inr (absent, rw absent (from_file-Grown files name cache))
      | inr (g, there) ↦ inl (g, there, rw there refl)
    ]

    kept_by :
        (other name : String) (cache : Cache) (g : CompiledGraph) (after : Cache × LoadEnd)
        → lookup name cache ≡ some g
        → lookup other cache ≡ none
        → Grown other cache after
        → lookup name after.0 ≡ some g
    kept_by other name cache g after there absent (inl (u, stored, e, loaded_)) =
        elim (Bool-cases (str_eq other name)) [
          | inl same ↦
              let found : lookup other cache ≡ some g =
                subst (λ x. lookup x cache ≡ some g) (sym ((eq_iff other name).0 same)) there in
              cc (found, absent)
          | inr differ ↦
              ap (λ d. lookup name d) e ∙ lookup-put_other other name u cache differ ∙ there
        ]
    kept_by other name cache g after there absent (inr (same, unloaded)) =
        ap (λ d. lookup name d) same ∙ there

    -- a graph in the cache stays, whatever is loaded
    load_graph_keeps :
        (files : String → Option Read) (other name : String) (cache : Cache) (g : CompiledGraph)
        → lookup name cache ≡ some g
        → lookup name (load_graph is_alnum graphs_dir files other cache).0 ≡ some g
    load_graph_keeps files other name cache g there = elim (load_graph-Grown files other cache) [
      | inl (u, found, e) ↦ ap (λ p. lookup name p.0) e ∙ there
      | inr (absent, grown) ↦
          kept_by other name cache g (load_graph is_alnum graphs_dir files other cache) there absent
            grown
    ]

    load_graph-IsCache :
        (files : String → Option Read) (name : String) (cache : Cache)
        → IsCache cache
        → IsCache (load_graph is_alnum graphs_dir files name cache).0
    load_graph-IsCache files name cache h = elim (load_graph-Grown files name cache) [
      | inl (u, found, e) ↦ subst IsCache (sym (ap (λ p. p.0) e)) h
      | inr (absent, inl (u, stored, e, loaded_)) ↦
          subst IsCache (sym e) (put-IsCache name u cache stored h)
      | inr (absent, inr (same, unloaded)) ↦ subst IsCache (sym same) h
    ]

    -- what is loaded is in the cache then
    load_graph_found :
        (files : String → Option Read) (name : String) (cache : Cache) (g : CompiledGraph)
        → (load_graph is_alnum graphs_dir files name cache).1 ≡ loaded g
        → lookup name (load_graph is_alnum graphs_dir files name cache).0 ≡ some g
    load_graph_found files name cache g h = elim (load_graph-Grown files name cache) [
      | inl (u, found, e) ↦
          let is : loaded u ≡ loaded g = sym (ap (λ p. p.1) e) ∙ h in
          let same : u ≡ g = ground arith in ap (λ p. lookup name p.0) e ∙ found ∙ ap some same
      | inr (absent, inl (u, stored, e, loaded_)) ↦
          let is : loaded u ≡ loaded g = sym loaded_ ∙ h in
          let same : u ≡ g = ground arith in
          ap (λ d. lookup name d) e ∙ lookup-put name u cache ∙ ap some same
      | inr (absent, inr (same, unloaded)) ↦ absurd (unloaded g h)
    ]

    -- loads one after another, the files being other ones at each
    abbrev pub load_all : List ((String → Option Read) × String) → Cache → Cache
    load_all [] cache = cache
    load_all ((files, name) ∷ loads) cache =
        load_all loads (load_graph is_alnum graphs_dir files name cache).0

    load_all-IsCache :
        (loads : List ((String → Option Read) × String)) (cache : Cache)
        → IsCache cache
        → IsCache (load_all loads cache)
    load_all-IsCache [] cache h = h
    load_all-IsCache ((files, name) ∷ loads) cache h =
        load_all-IsCache loads _ (load_graph-IsCache files name cache h)

    load_all_keeps :
        (loads : List ((String → Option Read) × String)) (name : String) (cache : Cache)
        (g : CompiledGraph)
        → lookup name cache ≡ some g
        → lookup name (load_all loads cache) ≡ some g
    load_all_keeps [] name cache g h = h
    load_all_keeps ((files, other) ∷ loads) name cache g h =
        load_all_keeps loads name _ g (load_graph_keeps files other name cache g h)

nothing_cached : (is_alnum : Char → Bool) → IsCache is_alnum []
unfolding lookup
nothing_cached is_alnum name g h = cc

cached_again :
    (is_alnum : Char → Bool) (graphs_dir name : String) (files : String → Option Read)
    (cache : Cache) (g : CompiledGraph)
    → lookup name cache ≡ some g
    → load_graph is_alnum graphs_dir files name cache ≡ (cache, loaded g)
unfolding load_graph
cached_again is_alnum graphs_dir name files cache g h = rw h refl

-- When a Run manager has loaded a graph, after any loads before: the name of the graph has only
-- letters, digits, dashes and underscores, so that its file lies in the directory of the graphs; the
-- graph is the compilation of a valid definition; and after any further loads, whatever the files
-- hold then, a load of the name gives the same graph and changes nothing.
pub load_graph-IsStored :
    (is_alnum : Char → Bool) (graphs_dir name : String) (files files' : String → Option Read)
    (before after : List ((String → Option Read) × String)) (g : CompiledGraph)
    → let cache : Cache = load_all is_alnum graphs_dir before [] in
      let loading : Cache × LoadEnd = load_graph is_alnum graphs_dir files name cache in
      let later : Cache = load_all is_alnum graphs_dir after loading.0 in
      loading.1 ≡ loaded g
      → IsStored is_alnum name g
        × (load_graph is_alnum graphs_dir files' name later ≡ (later, loaded g))
load_graph-IsStored is_alnum graphs_dir name files files' before after g h =
    let cache = load_all is_alnum graphs_dir before [] in
    let loading = load_graph is_alnum graphs_dir files name cache in
    let found = load_graph_found is_alnum graphs_dir files name cache g h in
    (
      load_graph-IsCache is_alnum graphs_dir files name cache
          (load_all-IsCache is_alnum graphs_dir before [] (nothing_cached is_alnum)) name g found,
      cached_again is_alnum graphs_dir name files' (load_all is_alnum graphs_dir after loading.0) g
          (load_all_keeps is_alnum graphs_dir after name loading.0 g found),
    )
