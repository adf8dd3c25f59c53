-- ===== src/Sync/Replay/Difference.antt =====
-- What an empty difference means.
use travel_mcp.Prelude.{
  ◌≡◌, refl, ap, ◌∙◌, ◌&&◌, str_eq, length, eq_iff, inl, inr, arith, String, Bool, true, false,
  List, [], ◌∷◌, some, lookup, All, Bool-cases, Option-cases,
}
use travel_mcp.Prelude.Sort.{sort_by, insert_by}
use travel_mcp.Planner.Choose.{text_before}
use travel_mcp.Sync.Replay.{
  Fields, Projection, agrees, equal_fields, removed_keys, changed_keys, diff_projections, is_nil,
  is_empty,
}

insert_by-nil :
    (before : String → String → Bool) (k : String) (ks : List String)
    → is_nil (insert_by before k ks) ≡ false
unfolding insert_by is_nil
insert_by-nil before k [] = refl
insert_by-nil before k (j ∷ ks) = elim (Bool-cases (before j k)) [
  | inl y ↦ rw y refl
  | inr n ↦ rw n refl
]

sort_by-nil :
    (before : String → String → Bool) (ks : List String)
    → is_nil (sort_by before ks) ≡ true
    → ks ≡ []
unfolding sort_by
sort_by-nil before [] h = refl
sort_by-nil before (k ∷ ks) h = absurd (ground (arith, insert_by-nil before k (sort_by before ks)))

-- Every key of the first has an entry in the second.
abbrev pub Within : Projection → Projection → Type 0
Within a b = All (λ (r : String × Fields). (v : Fields) × (lookup r.0 b ≡ some v)) a

-- The fields of the first are those of the second: there are as many, and each field of the first has
-- its value in the second.
abbrev pub SameFields : Fields → Fields → Type 0
SameFields a b = (length a ≡ length b) × All (λ (f : String × String). lookup f.0 b ≡ some f.1) a

-- Every entry of the first has an entry in the second, with the same fields.
abbrev pub Agrees : Projection → Projection → Type 0
Agrees a b =
    All (λ (r : String × Fields). (v : Fields) × (lookup r.0 b ≡ some v) × SameFields r.1 v) a

removed-Within : (a b : Projection) → removed_keys a b ≡ [] → Within a b
unfolding removed_keys
removed-Within [] b h = tt
removed-Within ((k, av) ∷ a) b h = elim (Option-cases (lookup k b)) [
  | inl e ↦ let bad : k ∷ removed_keys a b ≡ [] = rw (e, removed_keys) at h in absurd (ground arith)
  | inr (v, e) ↦ ((v, e), removed-Within a b (rw (e, removed_keys) at h))
]

agrees-All :
    (a b : Fields) → agrees a b ≡ true → All (λ (f : String × String). lookup f.0 b ≡ some f.1) a
unfolding agrees
agrees-All [] b h = tt
agrees-All ((k, v) ∷ a) b h = elim (Option-cases (lookup k b)) [
  | inl e ↦ let bad : false ≡ true = rw (e, agrees) at h in absurd (ground arith)
  | inr (w, e) ↦
      let both : (str_eq w v && agrees a b) ≡ true = rw (e, agrees) at h in
      (e ∙ ap some ((eq_iff w v).0 (ground arith)), agrees-All a b (ground arith))
]

equal_fields-SameFields : (a b : Fields) → equal_fields a b ≡ true → SameFields a b
unfolding equal_fields
equal_fields-SameFields a b h = (ground arith, agrees-All a b (ground arith))

both-Agrees : (a b : Projection) → Within a b → changed_keys a b ≡ [] → Agrees a b
unfolding changed_keys
both-Agrees [] b w h = tt
both-Agrees ((k, av) ∷ a) b ((v, e), w) h = elim (Bool-cases (equal_fields av v)) [
  | inl y ↦
      ((v, e, equal_fields-SameFields av v y), both-Agrees a b w (rw (e, y, changed_keys) at h))
  | inr n ↦
      let bad : k ∷ changed_keys a b ≡ [] = rw (e, n, changed_keys) at h in absurd (ground arith)
]

-- If the difference is empty, the second projection has every entry of the first, with as many fields
-- and the same value in each, and no key that the first has not.
pub diff_projections-Agrees :
    (a b : Projection) → is_empty (diff_projections a b) ≡ true → Agrees a b × Within b a
unfolding is_empty diff_projections
diff_projections-Agrees a b h =
    let added = sort_by-nil text_before (removed_keys b a) (ground arith) in
    let removed = sort_by-nil text_before (removed_keys a b) (ground arith) in
    let changed = sort_by-nil text_before (changed_keys a b) (ground arith) in
    (both-Agrees a b (removed-Within a b removed) changed, removed-Within b a added)
