-- ===== src/Tests/Spending.antt =====
-- A ledger that a run commits to, a broken one, and an envelope over it.
use rayspec_py.Prelude.{◌≡◌, ◌↔◌, refl, true, false, none, some, [], ◌∷◌}
use rayspec_py.Prelude.Int.{ℤ, pos, ◌+ℤ◌, ◌-ℤ◌}
use rayspec_py.Prelude.Dict.{Dict, get, put}
use rayspec_py.Limits.Ledger.{
  Json, null, real, value, object, Doc, fresh, SpendState, Moment, repair, state_of, amount, str,
}
use rayspec_py.Limits.Ledger.Books.{
  prune, prune_days, prune_months, prune_runs, add, stamp_entry, committed, commit_doc,
}
use rayspec_py.Limits.Ledger.File.{Ledger, holds, commit, version_problem}
use rayspec_py.Limits.Ledger.Repaired.{repair_idem, state_of-repair}
use rayspec_py.Limits.Ledger.Commits.{IsKept, commit_all, commit_all_books, commit_null_runs}
use rayspec_py.Limits.Envelope.{RunEnvelope, budget, failures, judge, waive}
use rayspec_py.Limits.Envelope.Waivers.{judge_iff, stop_kind, BreakerStops, MoneyStops}

abbrev today : Moment
today = record { day = "2026-07-02"; month = "2026-07"; cutoff = "2026-05-01" }

abbrev spent : Doc
spent = record fresh {
  days = some (object (("2026-07-02", real (pos 40)) ∷ []));
  months = some (object (("2026-07", real (pos 90)) ∷ []));
  failures = some (real (pos 2));
}

repair_idem_example : repair (repair spent).0 ≡ ((repair spent).0, [])
repair_idem_example = repair_idem spent

state_of-repair_example : state_of (repair spent).0 today ≡ state_of spent today
state_of-repair_example = state_of-repair spent today (λ m. elim m [ ], tt) (λ m. elim m [ ], tt)

kept : IsKept today
kept = refl

abbrev entry : ℤ → Dict Json
entry cost = ("cost_usd", real cost) ∷ ("day", str "2026-07-02") ∷ ("month", str "2026-07") ∷ []

-- What a run of cost 5, then 12, leaves of the ledger `spent`.
abbrev booked : ℤ → ℤ → ℤ → Doc
booked cost day month = record spent {
  days = some (object (("2026-07-02", real day) ∷ []));
  months = some (object (("2026-07", real month) ∷ []));
  runs = some (object (("r1", object (entry cost)) ∷ []));
}

first_commit : commit_doc spent "r1" (some (pos 5)) today ≡ some (booked (pos 5) (pos 45) (pos 95))
unfolding commit_doc committed stamp_entry prune prune_days prune_months prune_runs add amount get
    put ◌+ℤ◌ ◌-ℤ◌
first_commit = refl

two_commits :
    commit_all spent "r1" (some (pos 5) ∷ some (pos 12) ∷ []) today
    ≡ some (booked (pos 12) (pos 52) (pos 102))
unfolding commit_all commit_doc committed stamp_entry prune prune_days prune_months prune_runs add
    amount get put ◌+ℤ◌ ◌-ℤ◌
two_commits = refl

commit_all_books_example :
    (state_of (booked (pos 12) (pos 52) (pos 102)) today).day_usd
    ≡ (state_of spent today).day_usd +ℤ (pos 12 -ℤ committed spent "r1")
commit_all_books_example =
    commit_all_books spent (booked (pos 12) (pos 52) (pos 102)) "r1"
      (some (pos 5) ∷ some (pos 12) ∷ []) today kept two_commits

abbrev locked : Ledger
locked = record { file = holds (record fresh { runs = some (value null) }); warnings = [] }

no_problem : version_problem fresh.version ≡ none
unfolding version_problem
no_problem = refl

commit_null_runs_example :
    ((commit locked "r1" (some (pos 5)) today).0 ≡ none)
    × ((commit locked "r1" (some (pos 5)) today).1.file ≡ locked.file)
commit_null_runs_example =
    commit_null_runs locked (record fresh { runs = some (value null) }) "r1" (some (pos 5)) today
      refl no_problem refl

abbrev run : RunEnvelope
run = record {
  envelope = record {
    per_run = some (pos 10);
    per_day = none;
    per_month = none;
    max_consecutive_failures = some 3;
  };
  ledger = locked;
  run_id = "r1";
  waived_spend = false;
  waived_failures = false;
  pause_kind = budget;
}

abbrev state : SpendState
state = record { day_usd = pos 40; month_usd = pos 90; consecutive_failures = 2 }

judge_iff_example :
    ((stop_kind (judge run state (some (pos 12))) ≡ some failures) ↔ BreakerStops run state)
    × ((stop_kind (judge run state (some (pos 12))) ≡ some budget)
        ↔ (¬ BreakerStops run state × MoneyStops run state (some (pos 12))))
judge_iff_example = judge_iff run state (some (pos 12))

-- A waiver that does not close the breaker waives the spending ceilings.
waived : (waive run false).waived_spend ≡ true
unfolding waive
waived = refl
