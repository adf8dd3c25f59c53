-- ===== src/Accounts/Rows.antt =====
-- The laws of the rows of a table that are written, dropped and read.
use travel_mcp.Prelude.{
  ℕ, ◌≡◌, refl, ◌∙◌, String, true, false, ◌==◌, str_eq, if◌then◌else◌, keep, List, [], ◌∷◌, none,
  some, arith, eq_iff,
}
use travel_mcp.Jobs.Store.{get_row, get_text, put_row, put_text}
use travel_mcp.Jobs.Store.Claims.{get_row-put_row}
use travel_mcp.Jobs.Store.Quotas.{get_text-put_text}
use travel_mcp.Accounts.{drop_row, drop_text}

pub get_row-drop_row :
    {V : Type 0} (k j : ℕ) (rows : List (ℕ × V))
    → get_row k (drop_row j rows) ≡ (if j == k then none else get_row k rows)
unfolding get_row drop_row keep
get_row-drop_row k j [] = ground arith
get_row-drop_row k j ((i, v) ∷ rows) = ground (arith, get_row-drop_row k j rows)

pub get_text-drop_text :
    {V : Type 0} (k j : String) (rows : List (String × V))
    → get_text k (drop_text j rows) ≡ (if str_eq j k then none else get_text k rows)
unfolding get_text drop_text keep
get_text-drop_text k j [] = ground arith
get_text-drop_text k j ((i, v) ∷ rows) =
    ground (arith, eq_iff i j, eq_iff i k, eq_iff j k, get_text-drop_text k j rows)

module _ {A : Type 0} where
  pub row_here :
      (k j : ℕ) (v : A) (rows : List (ℕ × A))
      → (j == k) ≡ true
      → get_row k (put_row j v rows) ≡ some v
  row_here k j v rows y = get_row-put_row k j v rows ∙ rw y refl

  pub row_other :
      (k j : ℕ) (v : A) (rows : List (ℕ × A))
      → (j == k) ≡ false
      → get_row k (put_row j v rows) ≡ get_row k rows
  row_other k j v rows n = get_row-put_row k j v rows ∙ rw n refl

  pub text_here :
      (k j : String) (v : A) (rows : List (String × A))
      → str_eq j k ≡ true
      → get_text k (put_text j v rows) ≡ some v
  text_here k j v rows y = get_text-put_text k j v rows ∙ rw y refl

  pub text_other :
      (k j : String) (v : A) (rows : List (String × A))
      → str_eq j k ≡ false
      → get_text k (put_text j v rows) ≡ get_text k rows
  text_other k j v rows n = get_text-put_text k j v rows ∙ rw n refl

  pub row_dropped :
      (k j : ℕ) (rows : List (ℕ × A)) → (j == k) ≡ true → get_row k (drop_row j rows) ≡ none
  row_dropped k j rows y = get_row-drop_row k j rows ∙ rw y refl

  pub row_kept :
      (k j : ℕ) (rows : List (ℕ × A))
      → (j == k) ≡ false
      → get_row k (drop_row j rows) ≡ get_row k rows
  row_kept k j rows n = get_row-drop_row k j rows ∙ rw n refl

  pub text_dropped :
      (k j : String) (rows : List (String × A))
      → str_eq j k ≡ true
      → get_text k (drop_text j rows) ≡ none
  text_dropped k j rows y = get_text-drop_text k j rows ∙ rw y refl

  pub text_kept :
      (k j : String) (rows : List (String × A))
      → str_eq j k ≡ false
      → get_text k (drop_text j rows) ≡ get_text k rows
  text_kept k j rows n = get_text-drop_text k j rows ∙ rw n refl
