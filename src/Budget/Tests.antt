-- ===== src/Budget/Tests.antt =====
-- Commits of a small day, and a call over midnight.
use connections.Base.{◌+◌, ◌≤◌, ◌≡◌, refl, true, some, [], ◌∷◌, ◌++◌, arith, str_eq}
use connections.Strategy.{FreeTierId}
use connections.Budget.{
  FreeTierReservation, UsageRow, Tables, ReservationSettlement, ReservationStatus, used_today,
  committed_tokens, outstanding, used_tokens, threshold, reserve, flush_call,
}
use connections.Budget.Safety.{
  Commits, reserves, records, uses, done, then_commit, Commits-within, reservation_of,
}
use connections.Budget.Midnight.{flush_call-midnight}

abbrev start : Tables
start = record {
  dispatch_states =
      record { tier = FreeTierId.flagship; active = true; threshold_percent = 80 } ∷ [];
  reservations = [];
  usage = [];
  tier_models = λ tier. "big" ∷ [];
  next_id = 1;
}

abbrev held : FreeTierReservation
held = record {
  id = 1;
  tier = FreeTierId.flagship;
  strategy_run_id = 11;
  reserved_tokens = 5000;
  status = ReservationStatus.pending;
  day = 20;
}

abbrev call : UsageRow
call = record { model = "big"; total_tokens = 3000; day = 20 }

abbrev judge : UsageRow
judge = record { model = "big"; total_tokens = 40; day = 20 }

abbrev settled : ReservationSettlement
settled = record { reservation_id = 1; recorded = true }

abbrev reserved : Tables
reserved = (reserve FreeTierId.flagship 11 5000 20 start).1

abbrev recorded_call : Tables
recorded_call = flush_call settled (some call) reserved

abbrev judged : Tables
judged = record recorded_call { usage = recorded_call.usage ++ judge ∷ [] }

reserved_call : reservation_of settled reserved ≡ some held
unfolding reserve committed_tokens outstanding used_tokens threshold
reserved_call = refl

three-Commits : Commits FreeTierId.flagship 20 (0 + 0 + 0 + 40) start judged
three-Commits =
    then_commit 0 40 start recorded_call judged
      (then_commit 0 0 start reserved recorded_call
        (then_commit 0 0 start start reserved (done start)
          (reserves FreeTierId.flagship 11 5000 start))
        (records settled held call reserved refl reserved_call (λ h. (refl, omega arith))))
      (uses judge recorded_call)

nothing_committed : committed_tokens FreeTierId.flagship 20 start ≤ threshold FreeTierId.flagship 80
unfolding committed_tokens outstanding used_tokens threshold
nothing_committed = omega arith

Commits-within_example :
    committed_tokens FreeTierId.flagship 20 judged
    ≤ threshold FreeTierId.flagship 80 + (0 + 0 + 0 + 40)
Commits-within_example =
    Commits-within FreeTierId.flagship 20 80 (0 + 0 + 0 + 40) start judged three-Commits
      (record { tier = FreeTierId.flagship; active = true; threshold_percent = 80 }, refl, refl)
      nothing_committed

abbrev next_day : UsageRow
next_day = record { model = "big"; total_tokens = 3000; day = 21 }

abbrev overnight : Tables
overnight = record start { reservations = held ∷ [] }

big_today : used_today ("big" ∷ []) 21 next_day ≡ true
unfolding str_eq
big_today = refl

flush_call-midnight_example :
    committed_tokens FreeTierId.flagship 21 (flush_call settled (some next_day) overnight)
    ≡ committed_tokens FreeTierId.flagship 21 overnight + 3000
flush_call-midnight_example =
    flush_call-midnight FreeTierId.flagship 21 settled next_day overnight refl ((λ h. refl), tt)
      big_today
