-- ===== src/Storage/Schema/Upgrade.antt =====
-- A migration that is executed and not recorded.
use shield_agent.Prelude.{
  ℕ, ◌≡◌, refl, ap, ◌∙◌, Bool, true, false, none, some, List, [], ◌∷◌, ◌++◌, Text, codes, ◌=ₜ◌, any,
  leb, drop, arith,
}
use shield_agent.Storage.Schema.{
  Schema, applying, recording, Migration, migrations, adds, creates, is_column, has_column,
  has_table, exec, apply_pending, current_version, migrate,
}

abbrev pub ip_column : Text × Text
ip_column = (codes "action_logs", codes "ip_address")

abbrev pub second : Migration
second = adds 2 (codes "action_logs") (codes "ip_address")

abbrev pub added : Schema → Schema
added s = record s { columns = s.columns ++ ip_column ∷ [] }

any-append_last :
    (p : Text × Text → Bool) (cs : List (Text × Text)) (c : Text × Text)
    → p c ≡ true
    → any p (cs ++ c ∷ []) ≡ true
any-append_last p [] c h = ground arith
any-append_last p (d ∷ cs) c h = ground (arith, any-append_last p cs c h)

is_column_refl : is_column ip_column ip_column ≡ true
unfolding ◌=ₜ◌
is_column_refl = refl

has_added : (s : Schema) → has_column (added s) ip_column ≡ true
has_added s = any-append_last (is_column ip_column) s.columns ip_column is_column_refl

module _ (s : Schema) where
  exec_again : has_column s ip_column ≡ true → exec second s ≡ none
  unfolding exec
  exec_again h = ground arith

  exec_first :
      has_column s ip_column ≡ false
      → has_table s (codes "action_logs") ≡ true
      → exec second s ≡ some (added s)
  unfolding exec
  exec_first h t = ground arith

module _ (records : ℕ → Bool) (current : ℕ) (m : Migration) (ms : List Migration) (s : Schema) where
  skips :
      leb m.version current ≡ true
      → apply_pending records current (m ∷ ms) s ≡ apply_pending records current ms s
  unfolding apply_pending
  skips h = ground arith

  fails :
      leb m.version current ≡ false
      → exec m s ≡ none
      → apply_pending records current (m ∷ ms) s ≡ (s, some (applying m.version))
  unfolding apply_pending
  fails h e = ground arith

  stops :
      (s' : Schema)
      → leb m.version current ≡ false
      → exec m s ≡ some s'
      → records m.version ≡ false
      → apply_pending records current (m ∷ ms) s ≡ (s', some (recording m.version))
  unfolding apply_pending
  stops s' h e r = ground arith

-- The migrations after the first two
abbrev others : List Migration
others = drop 2 migrations

at_first : (s : Schema) → s.versions ≡ 1 ∷ [] → current_version s.versions ≡ 1
unfolding current_version
at_first s h = rw h refl

module _ (records : ℕ → Bool) (s : Schema) (first : s.versions ≡ 1 ∷ []) where
  migrate-first : migrate records s ≡ apply_pending records 1 (second ∷ others) s
  unfolding migrate
  migrate-first =
      ap (λ (n : ℕ). apply_pending records n migrations s) (at_first s first)
      ∙ skips records 1 (creates 1 (codes "action_logs" ∷ [])) (second ∷ others) s refl

-- If the second migration is executed and its version is not recorded, every later start of the
-- program fails at that migration and changes nothing.
pub migrate-interrupted :
    (records records' : ℕ → Bool) (s : Schema)
    → s.versions ≡ 1 ∷ []
    → has_table s (codes "action_logs") ≡ true
    → has_column s ip_column ≡ false
    → records 2 ≡ false
    → (migrate records s ≡ (added s, some (recording 2)))
      × (migrate records' (added s) ≡ (added s, some (applying 2)))
migrate-interrupted records records' s first t c r = (
  migrate-first records s first
      ∙ stops records 1 second others s (added s) refl (exec_first s c t) r,
  migrate-first records' (added s) first
      ∙ fails records' 1 second others (added s) refl (exec_again (added s) (has_added s)),
)
