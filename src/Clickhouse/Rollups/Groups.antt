-- ===== src/Clickhouse/Rollups/Groups.antt =====
-- Putting rows of a view together by their keys changes nothing for what is merged of them later.
use bangmod_monitor.Prelude.{
  ℕ, zero, suc, false, ◌≡◌, refl, ap, ◌∙◌, List, [], ◌∷◌, ◌++◌, flat_map, ◌==◌, append_assoc, arith,
}
use bangmod_monitor.Clickhouse.Rollups.{
  Key, ViewRow, View, add_row, group_rows, insert_block, merge_parts, Bucket, add_bucket, bucket_of,
  add_if, merged_into,
}

module _ {V : Type 0} where
  abbrev bucket : ℕ → List V → Bucket V
  bucket t vs = record { start = t; state = vs }

  add_bucket-same :
      (t : ℕ) (us vs : List V) (l : List (Bucket V))
      → add_bucket (bucket t us) (add_bucket (bucket t vs) l) ≡ add_bucket (bucket t (us ++ vs)) l
  add_bucket-same t us vs [] = ground arith
  add_bucket-same t us vs (c ∷ l) =
      ground (arith, add_bucket-same t us vs l, append_assoc us vs c.state)

  add_bucket_comm :
      (b c : Bucket V) (l : List (Bucket V))
      → (b.start == c.start) ≡ false
      → add_bucket b (add_bucket c l) ≡ add_bucket c (add_bucket b l)
  add_bucket_comm b c [] h = ground arith
  add_bucket_comm b c (d ∷ l) h = ground (arith, add_bucket_comm b c l h)

module _ {G V : Type 0} (k : Key G) (g : G) where
  add_if-add_row :
      (r : ViewRow G V) (l : List (ViewRow G V)) (acc : List (Bucket V))
      → merged_into k g (add_row k r l) acc ≡ add_if k g r (merged_into k g l acc)
  add_if-add_row r [] acc = refl
  add_if-add_row r (s ∷ l) acc =
      let rest = merged_into k g l acc in
      ground (
        arith,
        add_if-add_row r l acc,
        add_bucket-same r.start r.state s.state rest,
        add_bucket_comm (bucket_of r) (bucket_of s) rest,
        k.same_iff r.group s.group,
        k.same_iff r.group g,
        k.same_iff s.group g,
      )

  merged_into-group_rows :
      (l : List (ViewRow G V)) (acc : List (Bucket V))
      → merged_into k g (group_rows k l) acc ≡ merged_into k g l acc
  unfolding group_rows
  merged_into-group_rows [] acc = refl
  merged_into-group_rows (r ∷ l) acc =
      add_if-add_row r (group_rows k l) acc ∙ ap (add_if k g r) (merged_into-group_rows l acc)

  pub merged_into-append :
      (xs ys : List (ViewRow G V)) (acc : List (Bucket V))
      → merged_into k g (xs ++ ys) acc ≡ merged_into k g xs (merged_into k g ys acc)
  merged_into-append [] ys acc = refl
  merged_into-append (x ∷ xs) ys acc = ap (add_if k g x) (merged_into-append xs ys acc)

  -- The rows of a view, part by part
  abbrev pub content : View G V → List (Bucket V) → List (Bucket V)
  content [] acc = acc
  content (p ∷ v) acc = merged_into k g p (content v acc)

  pub content-flat :
      (v : View G V) (acc : List (Bucket V))
      → merged_into k g (flat_map (λ p. p) v) acc ≡ content v acc
  content-flat [] acc = refl
  content-flat (p ∷ v) acc =
      merged_into-append p (flat_map (λ q. q) v) acc ∙ ap (merged_into k g p) (content-flat v acc)

  pub content-insert_block :
      (rows : List (ViewRow G V)) (v : View G V) (acc : List (Bucket V))
      → content (insert_block k rows v) acc ≡ content v (merged_into k g rows acc)
  unfolding insert_block
  content-insert_block rows [] acc = merged_into-group_rows rows acc
  content-insert_block rows (p ∷ v) acc = ap (merged_into k g p) (content-insert_block rows v acc)

  pub content-merge_parts :
      (n : ℕ) (v : View G V) (acc : List (Bucket V))
      → content (merge_parts k n v) acc ≡ content v acc
  unfolding merge_parts
  content-merge_parts n [] acc = refl
  content-merge_parts zero (p ∷ []) acc = refl
  content-merge_parts zero (p ∷ q ∷ v) acc =
      merged_into-group_rows (p ++ q) (content v acc) ∙ merged_into-append p q (content v acc)
  content-merge_parts (suc n) (p ∷ v) acc = ap (merged_into k g p) (content-merge_parts n v acc)
