-- ===== src/Tests/Small.antt =====
-- The cache, the election and the replay at small inputs.
use travel_mcp.Prelude.{
  ℕ, ◌+◌, ◌≡◌, ◌⊎◌, inr, map, ap, sym, arith, refl, lookup, true, String, List, [], ◌∷◌, none, some,
  leb, if◌then◌else◌, pos,
}
use travel_mcp.Cache.{MemoryCache, new_memory, get, set}
use travel_mcp.Cache.Lifetime.{get-set, get-get}
use travel_mcp.Sync.Election.{AttributeCandidate, elect_field}
use travel_mcp.Sync.Election.Elected.{ByHand, Scored, elect_field_lem}
use travel_mcp.Prelude.Sort.{sort_by, insert_by}
use travel_mcp.Sync.Replay.{
  Projection, equal_fields, agrees, removed_keys, changed_keys, diff_projections, is_nil, is_empty,
}
use travel_mcp.Sync.Replay.Difference.{Agrees, Within, diff_projections-Agrees}
use travel_mcp.Strings.{◌<>◌}
use travel_mcp.Sync.Overrides.{
  Override, Json, is_zero, text_less, override_key, validate, by_key, validate_all,
  marshal_overrides, unmarshal_overrides,
}
use travel_mcp.Sync.Overrides.Print.{KeysApart, unmarshal_overrides-marshal_overrides}
use travel_mcp.Tests.Plane.{plane}

get-set_example :
    (get 15 (set 10 new_memory "k" (7 ∷ []) (pos 3)) "k").1
    ≡ (if leb 15 (10 + 3) then some (7 ∷ []) else none)
get-set_example = get-set 10 15 new_memory "k" (7 ∷ []) 2

abbrev old_cache : MemoryCache
old_cache = set 10 new_memory "k" (7 ∷ []) (pos 3)

get-get_example : (get 16 (get 15 old_cache "k").0 "k").1 ≡ (get 16 old_cache "k").1
get-get_example = get-get 15 16 old_cache "k" "k" (omega arith)

abbrev said : String → ℕ → String → AttributeCandidate ℕ
said value confidence origin = record {
  field = "name";
  value = value;
  source = "osm";
  confidence = confidence;
  observed_at = 5;
  actor_id = none;
  origin = origin;
}

abbrev names : List (AttributeCandidate ℕ)
names = said "Alpha" 9 "seed" ∷ said "Beta" 1 "live" ∷ []

elect_field_lem_example :
    ((names ≡ []) × (elect_field names ≡ none))
    ⊎ ((c : AttributeCandidate ℕ) × (elect_field names ≡ some c)
        × (ByHand names c ⊎ Scored names c))
elect_field_lem_example = elect_field_lem names

abbrev before_replay : Projection
before_replay = ("t1", ("name", "Alpha") ∷ []) ∷ ("t2", ("name", "Beta") ∷ []) ∷ []

abbrev after_replay : Projection
after_replay = ("t2", ("name", "Beta") ∷ []) ∷ ("t1", ("name", "Alpha") ∷ []) ∷ []

same_replay : is_empty (diff_projections before_replay after_replay) ≡ true
unfolding is_empty is_nil diff_projections removed_keys changed_keys equal_fields agrees lookup
    sort_by insert_by
same_replay = refl

diff_projections-Agrees_example :
    Agrees before_replay after_replay × Within after_replay before_replay
diff_projections-Agrees_example = diff_projections-Agrees before_replay after_replay same_replay

abbrev by_hand : String → ℕ → Override ℕ
by_hand field value = record {
  entity_type = "stop";
  system = "osm";
  code = "7";
  field = field;
  value = value;
  actor_id = pos 2;
}

abbrev two_fields : List (Override ℕ)
two_fields = by_hand "name" 5 ∷ by_hand "lat" 3 ∷ []

-- A codec of the values, which knows the overrides of these two fields.
abbrev values : Json ℕ
values = record {
  marshal = λ l. some (map (λ (o : Override ℕ). o.value) l);
  unmarshal = λ b. elim b [
    | [] ↦ none
    | v ∷ rest ↦ elim rest [ [] ↦ none | w ∷ more ↦ some (by_hand "lat" v ∷ by_hand "name" w ∷ []) ]
  ];
}

in_order : sort_by by_key two_fields ≡ by_hand "lat" 3 ∷ by_hand "name" 5 ∷ []
unfolding sort_by insert_by by_key text_less override_key ◌<>◌
in_order = refl

written : marshal_overrides values two_fields ≡ inr (3 ∷ 5 ∷ [])
unfolding marshal_overrides validate_all validate is_zero sort_by insert_by by_key text_less
    override_key ◌<>◌
written = refl

two_keys : KeysApart two_fields
unfolding KeysApart override_key ◌<>◌
two_keys = ((refl, tt), (tt, tt))

reads : values.unmarshal (3 ∷ 5 ∷ []) ≡ some (sort_by by_key two_fields)
reads = ap some (sym in_order)

unmarshal_overrides-marshal_overrides_example :
    unmarshal_overrides values (3 ∷ 5 ∷ []) ≡ inr (sort_by by_key two_fields)
unmarshal_overrides-marshal_overrides_example =
    unmarshal_overrides-marshal_overrides values two_fields (3 ∷ 5 ∷ []) (λ m. reads) written
      two_keys
