-- ===== src/Alarm/Postgres/Rows.antt =====
-- The row that a query finds, and what an update of it does.
use thingsflow.Base.{
  ℕ, suc, ◌≤◌, ◌≡◌, subst, List, [], ◌∷◌, true, false, some, arith, ltb, if◌then◌else◌, Bool-cases,
  Option-cases, inl, inr, Any, In, ◌&&◌, not,
}
use thingsflow.Base.Text.{Text, text_eq, text_eq_refl}
use thingsflow.Alarm.Postgres.{AlarmRow, is_active, later_start, latest, update_rows, cleared_row}
use thingsflow.Alarm.Postgres.Active.{count_active, count_active-update_rows, cleared_row-Tame}

cleared_inactive :
    (at : ℕ) (device alarm_type : Text) (r : AlarmRow)
    → is_active device alarm_type (cleared_row at r) ≡ false
unfolding is_active
cleared_inactive at device alarm_type r = ground arith

-- Clearing the row that is found takes one from the count of the active ones.
pub count_active-cleared :
    (at : ℕ) (device alarm_type : Text) (r : AlarmRow) (rows : List AlarmRow)
    → latest device alarm_type rows ≡ some r
    → suc (count_active device alarm_type (update_rows r.id (cleared_row at) rows))
      ≤ count_active device alarm_type rows
unfolding count_active update_rows latest later_start
count_active-cleared at device alarm_type r [] h = cc h
count_active-cleared at device alarm_type r (q ∷ rows) h = ground (
  arith,
  cleared_inactive at device alarm_type q,
  count_active-cleared at device alarm_type r rows,
  count_active-update_rows r.id (cleared_row at) device alarm_type rows (cleared_row-Tame at),
  text_eq_refl q.id,
)

pub latest-In :
    (device alarm_type : Text) (r : AlarmRow) (rows : List AlarmRow)
    → latest device alarm_type rows ≡ some r
    → In r rows
unfolding latest later_start
latest-In device alarm_type r [] h = cc h
latest-In device alarm_type r (q ∷ rows) h = elim (Option-cases (latest device alarm_type rows)) [
  | inl e ↦ inl (ground (arith, e))
  | inr (p, e) ↦
      elim (Bool-cases (is_active device alarm_type q && not (ltb q.start_ts p.start_ts))) [
        | inl g ↦ inl (ground (arith, e, g))
        | inr g ↦ inr (latest-In device alarm_type r rows (ground (arith, e, g)))
      ]
]

-- A row that is found and updated is there after the update.
pub Any-update_rows :
    (P : AlarmRow → Type 0) (f : AlarmRow → AlarmRow) (r : AlarmRow) (rows : List AlarmRow)
    → In r rows
    → P (f r)
    → Any P (update_rows r.id f rows)
unfolding update_rows
Any-update_rows P f r [] m p = elim m [ ]
Any-update_rows P f r (q ∷ rows) (inl e) p = inl (
    subst (λ (x : AlarmRow). P (if text_eq x.id r.id then f x else x)) e (rw (text_eq_refl r.id) p))
Any-update_rows P f r (q ∷ rows) (inr m) p = inr (Any-update_rows P f r rows m p)

pub latest-active :
    (device alarm_type : Text) (r : AlarmRow) (rows : List AlarmRow)
    → latest device alarm_type rows ≡ some r
    → is_active device alarm_type r ≡ true
unfolding latest later_start
latest-active device alarm_type r [] h = cc h
latest-active device alarm_type r (q ∷ rows) h =
    ground (arith, latest-active device alarm_type r rows)
