-- ===== src/Rag/Nearest.antt =====
-- The chunks that a search finds.
use fastapi_langgraph_templa.Common.{
  ℕ, zero, suc, ◌≤◌, String, str_eq, ◌≡◌, refl, ap, sym, subst, List, [], ◌∷◌, ◌++◌, ◌⊎◌, inl, inr,
  Bool-cases, arith, leb, min, max, length, take, drop, filter, All,
}
use fastapi_langgraph_templa.Common.Slices.{take-drop_append, length-take_le}
use mathlib.Core.List.{Permᴰ}
use mathlib.Core.List.Permᴰ
use fastapi_langgraph_templa.Rag.{ChunkRow, RagDb, insert_by_distance, by_distance, nearest}

module _ {V : Type 0} (distance : V → V → ℕ) (q : V) where
  abbrev pub Closer : ChunkRow V → ChunkRow V → Type 0
  Closer c d = distance c.embedding q ≤ distance d.embedding q

  -- each is as close as those after it
  abbrev pub Ascending : List (ChunkRow V) → Type 0
  Ascending [] = Unit
  Ascending (c ∷ cs) = All (Closer c) cs × Ascending cs

  All-further :
      (c d : ChunkRow V) (ds : List (ChunkRow V))
      → Closer c d
      → All (Closer d) ds
      → All (Closer c) ds
  All-further c d [] h all_ = tt
  All-further c d (x ∷ xs) h all_ = (omega arith, All-further c d xs h all_.1)

  All-insert :
      (b c : ChunkRow V) (ds : List (ChunkRow V))
      → Closer b c
      → All (Closer b) ds
      → All (Closer b) (insert_by_distance distance q c ds)
  unfolding insert_by_distance
  All-insert b c [] h all_ = (h, tt)
  All-insert b c (d ∷ ds) h all_ =
      elim (Bool-cases (leb (distance c.embedding q) (distance d.embedding q))) [
        | inl e ↦ rw e (h, all_)
        | inr e ↦ rw e (all_.0, All-insert b c ds h all_.1)
      ]

  insert-Ascending :
      (c : ChunkRow V) (ds : List (ChunkRow V))
      → Ascending ds
      → Ascending (insert_by_distance distance q c ds)
  unfolding insert_by_distance
  insert-Ascending c [] h = (tt, tt)
  insert-Ascending c (d ∷ ds) h =
      elim (Bool-cases (leb (distance c.embedding q) (distance d.embedding q))) [
        | inl e ↦
            let close : Closer c d = ground arith in rw e ((close, All-further c d ds close h.0), h)
        | inr e ↦
            let close : Closer d c = ground arith in
            rw e (All-insert d c ds close h.0, insert-Ascending c ds h.1)
      ]

  by_distance-Ascending : (cs : List (ChunkRow V)) → Ascending (by_distance distance q cs)
  unfolding by_distance
  by_distance-Ascending [] = tt
  by_distance-Ascending (c ∷ cs) =
      insert-Ascending c (by_distance distance q cs) (by_distance-Ascending cs)

  insert-perm :
      (c : ChunkRow V) (ds : List (ChunkRow V))
      → Permᴰ (c ∷ ds) (insert_by_distance distance q c ds)
  unfolding insert_by_distance
  insert-perm c [] = Permᴰ.refl (c ∷ [])
  insert-perm c (d ∷ ds) =
      elim (Bool-cases (leb (distance c.embedding q) (distance d.embedding q))) [
        | inl e ↦ rw e (Permᴰ.refl (c ∷ d ∷ ds))
        | inr e ↦ rw e (Permᴰ.trans (Permᴰ.swap refl refl) (Permᴰ.cons refl (insert-perm c ds)))
      ]

  by_distance-perm : (cs : List (ChunkRow V)) → Permᴰ cs (by_distance distance q cs)
  unfolding by_distance
  by_distance-perm [] = Permᴰ.nil
  by_distance-perm (c ∷ cs) =
      Permᴰ.trans (Permᴰ.cons refl (by_distance-perm cs))
        (insert-perm c (by_distance distance q cs))

  All-append_left :
      (c : ChunkRow V) (xs ys : List (ChunkRow V))
      → All (Closer c) (xs ++ ys)
      → All (Closer c) xs × All (Closer c) ys
  All-append_left c [] ys h = (tt, h)
  All-append_left c (x ∷ xs) ys h = let (a, b) = All-append_left c xs ys h.1 in ((h.0, a), b)

  Ascending-append :
      (xs ys : List (ChunkRow V))
      → Ascending (xs ++ ys)
      → Ascending xs × All (λ c. All (Closer c) ys) xs
  Ascending-append [] ys h = (tt, tt)
  Ascending-append (x ∷ xs) ys h =
      let (a, b) = All-append_left x xs ys h.0 in
      let (c, d) = Ascending-append xs ys h.1 in ((a, c), (b, d))

  take_full : (n : ℕ) (xs : List (ChunkRow V)) → (drop n xs ≡ []) ⊎ (length (take n xs) ≡ n)
  take_full zero xs = inr refl
  take_full (suc n) [] = inl refl
  take_full (suc n) (x ∷ xs) = elim (take_full n xs) [ inl e ↦ inl e | inr e ↦ inr (ap suc e) ]

  -- The visited rows of the knowledge base are the ones found and the rest; the ones found are in the order
  -- of their distance, no row of the rest is closer than any of them, and they are as many as the
  -- limit, or all.
  pub record IsNearest (scan : V → List (ChunkRow V) → List (ChunkRow V)) (kb_id : String)
      (top_k : ℕ) (db : RagDb V) (found : List (ChunkRow V)) : Type 0 where
    pub rest : List (ChunkRow V)
    pub split :
        Permᴰ
          (filter (λ (c : ChunkRow V). str_eq c.knowledge_base_id kb_id) (scan q db.chunks))
          (found ++ rest)
    pub ascending : Ascending found
    pub closest : All (λ c. All (Closer c) rest) found
    pub few : length found ≤ max 1 (min top_k 50)
    pub full : (rest ≡ []) ⊎ (length found ≡ max 1 (min top_k 50))

  -- Of the rows that PostgreSQL visits, whichever these are, a search finds the nearest of the
  -- knowledge base in the order of their distance: `top_k` of them, but at least one and at most 50,
  -- or all if it visits no more.
  pub nearest-IsNearest :
      (scan : V → List (ChunkRow V) → List (ChunkRow V)) (kb_id : String) (top_k : ℕ) (db : RagDb V)
      → IsNearest scan kb_id top_k db (nearest distance scan kb_id q top_k db)
  unfolding nearest
  nearest-IsNearest scan kb_id top_k db =
      let mine = filter (λ (c : ChunkRow V). str_eq c.knowledge_base_id kb_id) (scan q db.chunks) in
      let sorted = by_distance distance q mine in
      let limit = max 1 (min top_k 50) in
      let joined : take limit sorted ++ drop limit sorted ≡ sorted =
        take-drop_append limit sorted in
      let (ascending, closest) =
        Ascending-append (take limit sorted) (drop limit sorted)
          (subst Ascending (sym joined) (by_distance-Ascending mine)) in
      record {
        rest = drop limit sorted;
        split = subst (Permᴰ mine) (sym joined) (by_distance-perm mine);
        ascending = ascending;
        closest = closest;
        few = length-take_le limit sorted;
        full = take_full limit sorted;
      }
