-- ===== src/Tunnel/Client/Tests.antt =====
-- Runs of the client, and its theorems at concrete inputs.
use tuzy.Shared.{
  ℕ, ◌+◌, ◌*◌, ◌/◌, ◌^◌, ◌≤◌, ◌≡◌, refl, true, false, none, some, List, [], ◌∷◌, ◌++◌, length,
  if◌then◌else◌, arith,
}
use text.Mathlib.Text.{◌==◌ as str_eq}
use tuzy.Tunnel.Session.{Goaway}
use tuzy.Tunnel.Client.Backoff.{
  pos, TimeLib, backoff_base, backoff_max, ceiling, delay, longer, retry_after, retry_after_wraps,
}
use tuzy.Tunnel.Client.Dialing.{
  ExitError, other_error, Refusal, status_error, online, refused, unreachable, opened, connect,
  is_no_hello,
}
use tuzy.Tunnel.Client.{
  Served, Round, Client, new_client, continues, returns, max_rename_hops, run, round, connected,
  not_connected, serve, heed, reconnect, go_online, after_uptime, begin_dial, emit, retry_later,
}
use tuzy.Tunnel.Client.Runs.{client_of, IsSane, run-IsSane}
use tuzy.Tunnel.Client.Force.{forced, run_forces_once}
use tuzy.Tunnel.Client.Renames.{IsMoved, renames_end}
use tuzy.Tunnel.Client.Failures.{IsFailure, failures_back_off}

-- The texts "90" and "18000000000" are the only numbers; there are no dates.
abbrev decimal : TimeLib
decimal = record {
  atoi = λ s.
      if str_eq s "90"
      then some (pos 90)
      else if str_eq s "18000000000"
      then some (pos 18000000000)
      else none;
  parse_time = λ s. none;
}

abbrev half : ℕ → ℕ
half n = n / 2

abbrev quiet : Served
quiet = record { uptime = 40 * 10 ^ 9; goaway = none; error = other_error }

abbrev meets : Round
meets = record {
  stopped_waiting = false;
  now = 0;
  dial = unreachable other_error;
  stopped_dialing = false;
  served = quiet;
  stopped_serving = false;
  draw = half;
}

abbrev ready : Round
ready = record meets { dial = opened (online "shop") }

abbrev gone : Refusal
gone = record {
  status_code = 410;
  status = "410 Gone";
  body = record { code = "renamed"; text = ""; new_name = "store" };
  retry_header = "";
}

abbrev moved : Round
moved = record meets { dial = refused gone }

abbrev busy : Refusal
busy = record gone { status_code = 503; retry_header = "90" }

-- Out of reach twice, then online for long, then busy.
abbrev day : List Round
day = meets ∷ meets ∷ ready ∷ record meets { dial = refused busy } ∷ []

day_ends :
    ((client_of (run decimal (new_client "shop" true) day)).delay ≡ 90 * 10 ^ 9)
    × ((client_of (run decimal (new_client "shop" true) day)).attempt ≡ 2)
    × ((client_of (run decimal (new_client "shop" true) day)).dials
        ≡ ("shop", true) ∷ ("shop", true) ∷ ("shop", true) ∷ ("shop", false) ∷ [])
unfolding run round connected not_connected serve heed reconnect go_online after_uptime begin_dial
    emit retry_later is_no_hello connect status_error new_client retry_after longer delay ceiling
day_ends = (refl, refl, refl)

half-le : (c : ℕ) → half c ≤ c
half-le c = omega arith

run-IsSane_example : IsSane (client_of (run decimal (new_client "shop" true) day))
unfolding run round connected not_connected serve heed reconnect go_online after_uptime begin_dial
    emit retry_later is_no_hello connect status_error new_client retry_after longer delay ceiling
run-IsSane_example =
    run-IsSane decimal "shop" true day (client_of (run decimal (new_client "shop" true) day))
      (half-le, (half-le, (half-le, (half-le, tt)))) refl

abbrev replaced : Goaway
replaced = record { reason = "replaced"; new_name = ""; text = "" }

run_forces_once_example :
    forced (client_of (run decimal (new_client "shop" true) (ready ∷ meets ∷ ready ∷ []))).dials
    ≡ forced (new_client "shop" true).dials + (if (new_client "shop" true).force then 1 else 0)
unfolding connect
run_forces_once_example =
    run_forces_once decimal (new_client "shop" true) ready (meets ∷ ready ∷ []) "shop" refl refl

moved-IsMoved : IsMoved moved
moved-IsMoved = (refl, gone, refl, refl, refl)

meets-IsFailure : IsFailure meets
unfolding is_no_hello
meets-IsFailure = (refl, refl, other_error, refl, refl)

renames_end_example :
    (e : ExitError) × (c' : Client) × (run decimal
        (new_client "shop" false)
        (moved ∷ moved ∷ moved ∷ moved ∷ [])
      ≡ returns (some e) c')
    × (e.status ≡ 410)
    × (length c'.dials + (new_client "shop" false).rename_hops
        ≡ length (new_client "shop" false).dials + (max_rename_hops + 1))
unfolding new_client
renames_end_example =
    renames_end decimal (moved ∷ moved ∷ moved ∷ moved ∷ []) (new_client "shop" false)
      (moved-IsMoved, (moved-IsMoved, (moved-IsMoved, (moved-IsMoved, tt)))) (omega arith)
      (omega arith)

failures_back_off_example :
    (c' : Client) × (run decimal (new_client "shop" false) ((meets ∷ meets ∷ []) ++ meets ∷ [])
      ≡ continues c')
    × (c'.attempt ≡ (new_client "shop" false).attempt + length (meets ∷ meets ∷ []) + 1)
    × (c'.delay
        ≤ backoff_base * 2 ^ ((new_client "shop" false).attempt + length (meets ∷ meets ∷ [])))
    × (c'.delay ≤ backoff_max)
failures_back_off_example =
    failures_back_off decimal (meets ∷ meets ∷ []) meets (new_client "shop" false)
      (meets-IsFailure, (meets-IsFailure, tt)) meets-IsFailure half-le

retry_after_wraps_example : longer 250 (retry_after decimal "18000000000" 0) ≡ 250
retry_after_wraps_example =
    retry_after_wraps decimal "18000000000" 0 18000000000 250 refl refl (omega arith) (omega arith)
