-- ===== src/Tunnel/Client/Renames.antt =====
-- Hints to new names cannot keep an agent going for ever.
use tuzy.Shared.{
  ℕ, ◌+◌, ◌≤◌, ◌<◌, ◌≡◌, refl, ap, ◌∙◌, inl, inr, true, false, Bool-cases, some, List, [], ◌∷◌,
  length, length-append, All, ltb, arith,
}
use Prim.Native.String.{String}
use text.Mathlib.Text.{◌==◌ as str_eq}
use tuzy.Tunnel.Client.Backoff.{TimeLib}
use tuzy.Tunnel.Client.Dialing.{
  ExitError, renamed_to, renamed, Refusal, refused, status_error, fails, connect,
}
use tuzy.Tunnel.Client.{
  connected, Round, Client, continues, returns, max_rename_hops, emit, follow, hop, not_connected,
  begin_dial, round, and_then, run,
}
use tuzy.Tunnel.Client.Runs.{round_waited}

-- An attempt that the edge answers with 410 and a new name.
abbrev pub IsMoved : Round → Type 0
IsMoved r =
    (r.stopped_waiting ≡ false)
    × (q : Refusal) × (r.dial ≡ refused q)
    × (q.status_code ≡ 410)
    × (str_eq q.body.new_name "" ≡ false)

abbrev moved_exit : String → Refusal → ExitError
moved_exit name q = record {
  status = q.status_code;
  code = q.body.code;
  notice = renamed_to name q.body.new_name;
}

connect-moved :
    (lib : TimeLib) (now : ℕ) (name : String) (q : Refusal)
    → q.status_code ≡ 410
    → str_eq q.body.new_name "" ≡ false
    → connect lib now name (refused q) ≡ fails (renamed q.body.new_name (moved_exit name q))
unfolding connect status_error
connect-moved lib now name q s n = ground arith

round-moved :
    (lib : TimeLib) (c : Client) (r : Round) (m : IsMoved r)
    → round lib c r ≡ hop (begin_dial c) m.1.body.new_name (moved_exit c.name m.1)
unfolding connected not_connected
round-moved lib c r (w, q, d, s, n) =
    round_waited lib c r w
    ∙ ap (connected (begin_dial c) r)
        (ap (connect lib r.now c.name) d ∙ connect-moved lib r.now c.name q s n)

-- The client after a hint that it follows.
abbrev hopped : Client → String → Client
unfolding begin_dial follow emit
hopped c n =
    let c' : Client = begin_dial c in
    record (follow n (record c' { rename_hops = c'.rename_hops + 1 })) { delay = 0 }

hop-more :
    (c : Client) (n : String) (e : ExitError)
    → ltb max_rename_hops (c.rename_hops + 1) ≡ false
    → (hop (begin_dial c) n e ≡ continues (hopped c n))
      × ((hopped c n).rename_hops ≡ c.rename_hops + 1)
      × (length (hopped c n).dials ≡ length c.dials + 1)
unfolding hop begin_dial follow emit
hop-more c n e h = (rw h refl, refl, length-append c.dials _ ∙ refl)

hop-last :
    (c : Client) (n : String) (e : ExitError)
    → ltb max_rename_hops (c.rename_hops + 1) ≡ true
    → (c' : Client) × (hop (begin_dial c) n e ≡ returns (some e) c')
      × (length c'.dials ≡ length c.dials + 1)
unfolding hop begin_dial emit
hop-last c n e h =
    (record (begin_dial c) { rename_hops = c.rename_hops + 1 }, rw h refl, length-append c.dials _)

-- If every attempt is answered with a hint, `Run` dials four times in all, counted from the last time that the
-- edge was ready, and then returns the 410 as an exit error, whatever names the hints give and however they
-- repeat.
pub renames_end :
    (lib : TimeLib) (rs : List Round) (c : Client)
    → All IsMoved rs
    → c.rename_hops ≤ max_rename_hops
    → max_rename_hops < c.rename_hops + length rs
    → (e : ExitError) × (c' : Client) × (run lib c rs ≡ returns (some e) c')
      × (e.status ≡ 410)
      × (length c'.dials + c.rename_hops ≡ length c.dials + (max_rename_hops + 1))
unfolding run
renames_end lib [] c m h l = absurd (omega arith)
renames_end lib (r ∷ rs) c m h l = elim (Bool-cases (ltb max_rename_hops (c.rename_hops + 1))) [
  | inl last ↦
      let (w, q, d, st, n) = m.0 in
      let (c', e, k) = hop-last c q.body.new_name (moved_exit c.name q) last in
      (
        moved_exit c.name q,
        c',
        ap (λ v. and_then v (λ x. run lib x rs)) (round-moved lib c r m.0 ∙ e),
        st,
        ground (arith, last, k),
      )
  | inr more ↦
      let (w, q, d, st, n) = m.0 in
      let (e, g, k) = hop-more c q.body.new_name (moved_exit c.name q) more in
      let (x, c', run_e, s', k') =
        renames_end lib rs (hopped c q.body.new_name) m.1 (ground (arith, more, g))
          (omega (arith, l, g)) in
      (
        x,
        c',
        ap (λ v. and_then v (λ y. run lib y rs)) (round-moved lib c r m.0 ∙ e) ∙ run_e,
        s',
        omega (arith, k', k, g),
      )
]
