-- ===== src/Tunnel/Answer/HostCheck.antt =====
-- The replay of a request whose host the local app refused.
use tuzy.Shared.{
  ℕ, ◌-◌, ◌≡◌, refl, sym, ap, ap₂, subst, ◌∙◌, ◌⊎◌, inl, inr, Bool, true, false, ◌&&◌, ◌||◌,
  Bool-cases, Option, none, some, List, [], ◌∷◌, ◌++◌, append_assoc, leb, ◌==◌, if◌then◌else◌,
  if_both, length, take, drop, take-append-drop,
}
use tuzy.Protocol.{Bytes}
use tuzy.Tunnel.Flow.{Reader, reads, at_eof, read_error}
use tuzy.Tunnel.Flow.Body.{body}
use tuzy.Tunnel.Answer.Choosing.{
  Response, HostHeader, auto, preserve, rewrite, HostPolicy, preserves, is_auto, learn_host_rewrite,
  is_host_check_rejection, host_check_sniff_limit, peek, unpeek, Local, Choice, nothing, own,
  relays, Chosen, replay, on_rejection, on_suspect, on_answer, choose,
}

-- Peeking at a body loses nothing of it.
peek-unpeek : (n : ℕ) (r : Reader) → body (unpeek (peek n r)) ≡ body r
unfolding peek unpeek
peek-unpeek n (reads p r) =
    let (b, r') : Bytes × Reader = peek (n - length p) r in
    if_both (λ (x : Bytes × Reader). x.0 ++ body x.1 ≡ p ++ body r) (leb (length p) n) (p ++ b, r')
      (take n p, reads (drop n p) r)
      (append_assoc p b (body r') ∙ ap (◌++◌ p) (peek-unpeek (n - length p) r))
      (sym (append_assoc (take n p) (drop n p) (body r))
        ∙ ap (λ l. l ++ body r) (take-append-drop n p))
peek-unpeek n (at_eof p) = take-append-drop n p
peek-unpeek n (read_error p) = take-append-drop n p

-- A response of the local app, with all that its body holds.
abbrev pub IsOf : Response → Option Response → Type 0
IsOf r none = ⊥
IsOf r (some a) =
    (r.status ≡ a.status) × (r.headers ≡ a.headers) × (body r.content ≡ body a.content)

-- The answer that counts: that of the replay, if one was made and answered, and else the first.
abbrev pub last_answer : Local → List Bool → Option Response
last_answer l (a ∷ b ∷ trips) = elim l.second [ none ↦ l.answer | some r ↦ some r ]
last_answer l _ = l.answer

-- What the visitor is to get, by whether the request could be built and by the requests that were made.
abbrev pub Relays : Local → Option Bool → List Bool → Choice → Type 0
Relays l none trips c = c ≡ own l.bad_page
Relays l (some b) trips nothing = (l.answer ≡ none) × (l.gone ≡ true)
Relays l (some b) trips (own page) = (l.answer ≡ none) × (l.gone ≡ false) × (page ≡ l.page)
Relays l (some b) trips (relays r) = IsOf r (last_answer l trips)

-- The local app is asked at most once by the policy, or it is asked once more with the host rewritten.
pub record IsReplay (no_body : Bool) (p p' : HostPolicy) : Type 0 where
  pub bodyless : no_body ≡ true
  pub in_auto : p.host_header ≡ auto
  pub new : p.host_rewrite ≡ false
  pub learned : p' ≡ record p { host_rewrite = true }

abbrev pub Asks : Option Bool → HostPolicy → HostPolicy → List Bool → Type 0
Asks none p p' trips = trips ≡ []
Asks (some no_body) p p' trips =
    (trips ≡ preserves p ∷ []) ⊎ ((trips ≡ true ∷ false ∷ []) × IsReplay no_body p p')

pub record IsChosen (l : Local) (built : Option Bool) (p : HostPolicy) (c : Chosen) : Type 0 where
  pub relay : Relays l built c.trips c.choice
  pub asks : Asks built p c.policy c.trips

is_auto-auto : (h : HostHeader) → is_auto h ≡ true → h ≡ auto
is_auto-auto auto q = refl
is_auto-auto preserve q = absurd (cc)
is_auto-auto rewrite q = absurd (cc)

not_learned :
    (h : HostHeader) (b : Bool)
    → preserves (record { host_header = h; host_rewrite = b }) ≡ true
    → is_auto h ≡ true
    → b ≡ false
unfolding preserves
not_learned auto true q a = absurd (cc)
not_learned auto false q a = refl
not_learned preserve b q a = absurd (cc)
not_learned rewrite b q a = absurd (cc)

both : (x y : Bool) → (x && y) ≡ true → x ≡ true
both true y h = refl
both false y h = h

rewritten :
    (p : HostPolicy)
    → is_auto p.host_header ≡ true
    → preserves (record p { host_rewrite = true }) ≡ false
unfolding preserves
rewritten p a = by_header p.host_header a
  where
    by_header :
        (h : HostHeader)
        → is_auto h ≡ true
        → preserves (record { host_header = h; host_rewrite = true }) ≡ false
    by_header auto q = refl
    by_header preserve q = absurd (cc)
    by_header rewrite q = absurd (cc)

module _ (l : Local) (no_body : Bool) (r : Response) (p : HostPolicy) where
  -- The answer to the first request, however much of it was peeked.
  first : Reader → Response
  first content = record r { content = content }

  kept-IsChosen :
      (content : Reader) (rejected : Bool)
      → l.answer ≡ some r
      → preserves p ≡ true
      → body content ≡ body r.content
      → IsChosen l (some no_body) p (record {
        choice = relays (first content);
        policy = p;
        trips = preserves p ∷ [];
        host_rejected = rejected;
      })
  unfolding first
  kept-IsChosen content rejected q k b = record {
    relay = subst (IsOf (first content)) (sym q) (refl, refl, b);
    asks = inl refl;
  }

  replay-Relays :
      (content : Reader) (again : Bool) (o : Option Response) (p' : HostPolicy)
      → l.answer ≡ some r
      → l.second ≡ o
      → body content ≡ body r.content
      → Relays l
          (some no_body)
          (replay again (first content) o p p').trips
          (replay again (first content) o p p').choice
  unfolding replay first
  replay-Relays content false o p' q q' b = subst (IsOf (first content)) (sym q) (refl, refl, b)
  replay-Relays content true none p' q q' b =
      subst
        (λ (o : Option Response).
          IsOf (first content) (elim o [ none ↦ l.answer | some a ↦ some a ]))
        (sym q') (subst (IsOf (first content)) (sym q) (refl, refl, b))
  replay-Relays content true (some r') p' q q' b =
      subst (λ (o : Option Response). IsOf r' (elim o [ none ↦ l.answer | some a ↦ some a ]))
        (sym q') (refl, refl, refl)

  replay-trips :
      (again : Bool) (f : Response) (o : Option Response) (p' : HostPolicy)
      → (replay again f o p p').trips
        ≡ (if again then preserves p ∷ preserves p' ∷ [] else preserves p ∷ [])
  unfolding replay
  replay-trips false f o p' = refl
  replay-trips true f none p' = refl
  replay-trips true f (some r') p' = refl

  replay-policy :
      (again : Bool) (f : Response) (o : Option Response) (p' : HostPolicy)
      → (replay again f o p p').policy ≡ p'
  unfolding replay
  replay-policy false f o p' = refl
  replay-policy true f none p' = refl
  replay-policy true f (some r') p' = refl

  replay-Asks :
      (again : Bool) (f : Response) (o : Option Response)
      → preserves p ≡ true
      → is_auto p.host_header ≡ true
      → (again ≡ true → no_body ≡ true)
      → Asks
          (some no_body)
          p
          (replay again f o p (record p { host_rewrite = true })).policy
          (replay again f o p (record p { host_rewrite = true })).trips
  replay-Asks false f o k a n = inl (replay-trips false f o (record p { host_rewrite = true }))
  replay-Asks true f o k a n = inr (
    replay-trips true f o (record p { host_rewrite = true })
        ∙ ap₂ (λ x y. x ∷ y ∷ []) k (rewritten p a),
    record {
      bodyless = n refl;
      in_auto = is_auto-auto p.host_header a;
      new = not_learned p.host_header p.host_rewrite k a;
      learned = replay-policy true f o (record p { host_rewrite = true });
    },
  )

  on_rejection-IsChosen :
      (content : Reader)
      → l.answer ≡ some r
      → preserves p ≡ true
      → body content ≡ body r.content
      → IsChosen l (some no_body) p (on_rejection no_body l (first content) p)
  unfolding on_rejection learn_host_rewrite
  on_rejection-IsChosen content q k b = elim (Bool-cases (is_auto p.host_header)) [
    | inr other ↦ rw other (kept-IsChosen content true q k b)
    | inl a ↦ rw a (record {
      relay =
          replay-Relays content (no_body && l.rebuilt) l.second (record p { host_rewrite = true }) q
            refl b;
      asks =
          replay-Asks (no_body && l.rebuilt) (first content) l.second k a (both no_body l.rebuilt);
    })
  ]

  on_suspect-IsChosen :
      l.answer ≡ some r
      → preserves p ≡ true
      → IsChosen l
          (some no_body)
          p
          (on_suspect no_body l r p (peek host_check_sniff_limit r.content))
  unfolding on_suspect first
  on_suspect-IsChosen q k =
      let (b, rest) : Bytes × Reader = peek host_check_sniff_limit r.content in
      let e : body (unpeek (b, rest)) ≡ body r.content =
        peek-unpeek host_check_sniff_limit r.content in
      if_both (IsChosen l (some no_body) p) (is_host_check_rejection b)
        (on_rejection no_body l (first (unpeek (b, rest))) p)
        (record {
          choice = relays (first (unpeek (b, rest)));
          policy = p;
          trips = preserves p ∷ [];
          host_rejected = false;
        })
        (on_rejection-IsChosen (unpeek (b, rest)) q k e)
        (kept-IsChosen (unpeek (b, rest)) false q k e)

on_answer-IsChosen :
    (l : Local) (no_body : Bool) (o : Option Response) (p : HostPolicy)
    → l.answer ≡ o
    → IsChosen l (some no_body) p (on_answer no_body l o p)
unfolding on_answer
on_answer-IsChosen l no_body none p q = record { relay = gone l.gone refl; asks = inl refl }
  where
    gone :
        (b : Bool)
        → l.gone ≡ b
        → Relays l (some no_body) (preserves p ∷ []) (if b then nothing else own l.page)
    gone true e = (q, e)
    gone false e = (q, e, refl)
on_answer-IsChosen l no_body (some r) p q =
    elim (Bool-cases (preserves p && (r.status == 403 || r.status == 400))) [
      | inr fine ↦
          rw fine (record { relay = subst (IsOf r) (sym q) (refl, refl, refl); asks = inl refl })
      | inl suspect ↦ rw suspect (
          on_suspect-IsChosen l no_body r p q
            (both (preserves p) (r.status == 403 || r.status == 400) suspect))
    ]

-- What is relayed is the answer of the local app, with its status, its headers and its whole body, also if the body
-- was peeked at: that of the replay, if one was made and answered, and else the first. Without an answer there is
-- nothing for a visitor that is gone, and else the page for an app that is down; and for a request that cannot be
-- built there is the page for a bad one. The local app is asked at most twice; a second time only for a request
-- without a body, in auto mode that has not switched, and then with the host rewritten and the switch made.
pub choose-IsChosen : (l : Local) (p : HostPolicy) → IsChosen l l.built p (choose l l.built p)
unfolding choose
choose-IsChosen l p = chosen l.built
  where
    chosen : (built : Option Bool) → IsChosen l built p (choose l built p)
    chosen none = record { relay = refl; asks = refl }
    chosen (some no_body) = on_answer-IsChosen l no_body l.answer p refl
