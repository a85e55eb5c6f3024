-- ===== src/HubStore/Rows.antt =====
-- A database table with a primary key, and what the SQL statements of the source do to it.
use llmbox.Prelude.{
  ◌≡◌, ◌≢◌, ◌↔◌, ◌∙◌, arith, beq_refl, Option, none, some, [], Eq, ◌==◌, if◌then◌else◌, Table, get,
  put, del, get-put, get-del, get-In, In, HasDistinctKeys, put-HasDistinctKeys, del-HasDistinctKeys,
}

pub record Rows (K V : Type 0) ⦃e : Eq K⦄ : Type 0 where
  pub rows : Table K V
  pub distinct : HasDistinctKeys rows

module _ {K V : Type 0} ⦃e : Eq K⦄ where
  abbrev pub empty : Rows K V
  empty = record { rows = []; distinct = tt }

  -- `SELECT … WHERE key = ?`.
  unfoldable pub select : K → Rows K V → Option V
  select k t = get k t.rows

  -- `INSERT … ON CONFLICT(key) DO UPDATE SET …` of every column.
  unfoldable pub upsert : K → V → Rows K V → Rows K V
  upsert k v t = record {
    rows = put k v t.rows;
    distinct = put-HasDistinctKeys k v t.rows t.distinct;
  }

  -- `DELETE … WHERE key = ?`.
  unfoldable pub remove : K → Rows K V → Rows K V
  remove k t = record { rows = del k t.rows; distinct = del-HasDistinctKeys k t.rows t.distinct }

  select-upsert :
      (k j : K) (v : V) (t : Rows K V)
      → select j (upsert k v t) ≡ (if k == j then some v else select j t)
  unfolding select upsert
  select-upsert k j v t = get-put k j v t.rows

  select-remove :
      (k j : K) (t : Rows K V) → select j (remove k t) ≡ (if k == j then none else select j t)
  unfolding select remove
  select-remove k j t = get-del k j t.rows

  pub select-In : (k : K) (v : V) (t : Rows K V) → (select k t ≡ some v) ↔ In (k, v) t.rows
  unfolding select
  select-In k v t = get-In k v t.rows t.distinct

  module _ (k j : K) (t : Rows K V) where
    pub upserted : (v : V) → select k (upsert k v t) ≡ some v
    upserted v = select-upsert k k v t ∙ rw (beq_refl k)

    pub upsert_frame : (v : V) → j ≢ k → select j (upsert k v t) ≡ select j t
    upsert_frame v other = ground (arith, select-upsert k j v t, e.beq_iff k j)

    pub removed : select k (remove k t) ≡ none
    removed = select-remove k k t ∙ rw (beq_refl k)

    pub remove_frame : j ≢ k → select j (remove k t) ≡ select j t
    remove_frame other = ground (arith, select-remove k j t, e.beq_iff k j)

    pub remove_absent : select j t ≡ none → select j (remove k t) ≡ none
    remove_absent absent = ground (arith, select-remove k j t)
