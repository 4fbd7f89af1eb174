-- ===== src/Sqlite/Schema/Laws.antt =====
-- client/internal/sqlite: what the tables of the schema keep of the rows written.
use secure_messager_erlang.Prelude.{
  ◌≡◌, ◌≢◌, refl, ap, arith, true, not, List, [], ◌∷◌, ◌++◌, Bytes, eqb_ℤ_iff, bytes_equal_iff,
}
use secure_messager_erlang.Outcome.{Outcome, ok}
use secure_messager_erlang.Ratchet.DhRatchet.{DhRatchet}
use secure_messager_erlang.Sqlite.{Setting, blob, public_key, private_key, username, password}
use secure_messager_erlang.Sqlite.Settings.{SettingLaws}
use secure_messager_erlang.Sqlite.Schema.{
  Tables, MessageRow, same_setting, where_rows, conflicts, insert_row, replace_setting,
  find_setting, execute, select_row, schema,
}

same_setting_refl : (k : Setting) → same_setting k k ≡ true
same_setting_refl public_key = refl
same_setting_refl private_key = refl
same_setting_refl username = refl
same_setting_refl password = refl

same_setting_iff : (k j : Setting) → same_setting k j ≡ true → k ≡ j
same_setting_iff k j h = ground (arith, h)

find-append :
    (rows : List (Setting × Bytes)) (k : Setting) (v : Bytes)
    → find_setting (where_rows (λ row. not (same_setting k row.0)) rows ++ ((k, v) ∷ [])) k
      ≡ ok (blob v)
unfolding find_setting
find-append [] k v = ground (arith, same_setting_refl k)
find-append ((j, u) ∷ rows) k v =
    ground (arith, find-append rows k v, same_setting_iff j k, same_setting_refl k)

find-other :
    (rows : List (Setting × Bytes)) (k j : Setting) (v : Bytes)
    → k ≢ j
    → find_setting (where_rows (λ row. not (same_setting k row.0)) rows ++ ((k, v) ∷ [])) j
      ≡ find_setting rows j
unfolding find_setting
find-other [] k j v other = ground (arith, other, same_setting_iff k j)
find-other ((i, u) ∷ rows) k j v other =
    ground (arith, find-other rows k j v other, other, same_setting_iff k i, same_setting_iff i j)

module _ (marshal : DhRatchet → Outcome Bytes) (unmarshal : Bytes → Outcome DhRatchet) where
  -- The laws that the settings rely on hold of the schema.
  pub schema-SettingLaws : SettingLaws (schema marshal unmarshal)
  unfolding execute replace_setting select_row
  schema-SettingLaws = record {
    replaced = λ d d' k v h.
        rw (← ap (λ (r : Tables × Outcome (Unit {0})). r.0) h) (find-append d.user_settings k v);
    kept = λ d d' k j v other h.
        rw (← ap (λ (r : Tables × Outcome (Unit {0})). r.0) h)
          (find-other d.user_settings k j v other);
    scan-blob = λ v. refl;
    readable = λ d. refl;
  }

conflicts_trans : (a b r : MessageRow) → conflicts a b ≡ true → conflicts b r ≡ conflicts a r
conflicts_trans a b r h = ground (
  arith,
  h,
  bytes_equal_iff a.sender_id_hash b.sender_id_hash,
  eqb_ℤ_iff a.ratchet_index b.ratchet_index,
  eqb_ℤ_iff a.thread_index b.thread_index,
)

-- Two rows with one key, one after the other: nothing is left of the first.
pub insert_row_twice :
    (a b : MessageRow) (rows : List MessageRow)
    → conflicts b a ≡ true
    → insert_row b (insert_row a rows) ≡ insert_row b rows
unfolding insert_row
insert_row_twice a b rows h = ap (λ rs. rs ++ (b ∷ [])) (go rows)
  where
    go :
        (rs : List MessageRow)
        → where_rows
            (λ old. not (conflicts b old))
            (where_rows (λ old. not (conflicts a old)) rs ++ (a ∷ []))
          ≡ where_rows (λ old. not (conflicts b old)) rs
    go [] = ground (arith, h)
    go (r ∷ rs) = ground (arith, h, go rs, conflicts_trans b a r h)
