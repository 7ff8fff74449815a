-- ===== src/Tunnel/LocalRequest/Forwarded.antt =====
-- `responseHeaders`: which headers of the local app reach the visitor.
use tuzy.Shared.{
  ◌≡◌, refl, sym, ap, subst, ◌↔◌, inl, inr, Bool, true, false, List, [], ◌∷◌, ◌++◌, if◌then◌else◌,
}
use mathlib.Core.List.{Memᴰ}
use mathlib.Core.List.Memᴰ.{head, tail, append_left, append_right, append_cases}
use tuzy.Protocol.{Bytes}
use tuzy.Tunnel.CloseReason.{ascii_bytes}
use tuzy.Tunnel.LocalRequest.{HeaderLine, HttpLib}
use tuzy.Tunnel.LocalRequest.Listed.{IsEndToEnd, kept-IsEndToEnd, IsEndToEnd-kept}
use tuzy.Tunnel.LocalRequest.ResponseHeaders.{
  HeaderMap, values, listed_in, is_dropped, lines_of, forward, response_headers,
}

lines_of-Mem :
    (name : Bytes) (vs : List Bytes) (l : HeaderLine)
    → Memᴰ l (lines_of name vs)
    → (v : Bytes) × Memᴰ v vs × (l ≡ (name, v))
unfolding lines_of
lines_of-Mem name [] l m = elim m [ ]
lines_of-Mem name (v ∷ vs) l (head e) = (v, head refl, e)
lines_of-Mem name (v ∷ vs) l (tail m) = let (w, n, e) = lines_of-Mem name vs l m in (w, tail n, e)

Mem-lines_of : (name v : Bytes) (vs : List Bytes) → Memᴰ v vs → Memᴰ (name, v) (lines_of name vs)
unfolding lines_of
Mem-lines_of name v [] m = elim m [ ]
Mem-lines_of name v (w ∷ vs) (head e) = head (ap (λ v. (name, v)) e)
Mem-lines_of name v (w ∷ vs) (tail m) = tail (Mem-lines_of name v vs m)

-- The line is a value of a key of the map that is not dropped.
abbrev IsForwarded : HttpLib → List Bytes → HeaderMap → HeaderLine → Type 0
IsForwarded lib listed h (name, v) =
    (vs : List Bytes) × Memᴰ (name, vs) h × Memᴰ v vs × (is_dropped lib listed name ≡ false)

module _ (lib : HttpLib) (listed : List Bytes) where
  further :
      (k : Bytes × List Bytes) (h : HeaderMap) (l : HeaderLine)
      → IsForwarded lib listed h l
      → IsForwarded lib listed (k ∷ h) l
  further k h (name, v) (vs, m, n, d) = (vs, tail m, n, d)

  own_line :
      (name : Bytes) (vs : List Bytes) (h : HeaderMap) (l : HeaderLine)
      → is_dropped lib listed name ≡ false
      → (v : Bytes) × Memᴰ v vs × (l ≡ (name, v))
      → IsForwarded lib listed ((name, vs) ∷ h) l
  own_line name vs h l d (v, m, e) =
      subst (IsForwarded lib listed ((name, vs) ∷ h)) (sym e) (vs, head refl, m, d)

  on_map :
      (b : Bool) (name : Bytes) (vs : List Bytes) (h : HeaderMap) (l : HeaderLine)
      → is_dropped lib listed name ≡ b
      → (Memᴰ l (forward lib listed h) → IsForwarded lib listed h l)
      → Memᴰ l (if b then forward lib listed h else lines_of name vs ++ forward lib listed h)
      → IsForwarded lib listed ((name, vs) ∷ h) l
  on_map true name vs h l d step m = further (name, vs) h l (step m)
  on_map false name vs h l d step m = elim (append_cases (lines_of name vs) m) [
    | inl own ↦ own_line name vs h l d (lines_of-Mem name vs l own)
    | inr old ↦ further (name, vs) h l (step old)
  ]

  forward-IsForwarded :
      (h : HeaderMap) (l : HeaderLine) → Memᴰ l (forward lib listed h) → IsForwarded lib listed h l
  unfolding forward
  forward-IsForwarded [] l m = elim m [ ]
  forward-IsForwarded ((name, vs) ∷ h) l m =
      on_map (is_dropped lib listed name) name vs h l refl (forward-IsForwarded h l) m

  kept :
      (b : Bool) (name : Bytes) (vs : List Bytes) (h : HeaderMap) (l : HeaderLine)
      → Memᴰ l (forward lib listed h)
      → Memᴰ l (if b then forward lib listed h else lines_of name vs ++ forward lib listed h)
  kept true name vs h l m = m
  kept false name vs h l m = append_right (lines_of name vs) m

  own_kept :
      (b : Bool) (name v : Bytes) (vs : List Bytes) (h : HeaderMap)
      → b ≡ false
      → Memᴰ v vs
      → Memᴰ
          (name, v)
          (if b then forward lib listed h else lines_of name vs ++ forward lib listed h)
  own_kept true name v vs h e m = absurd (cc)
  own_kept false name v vs h e m = append_left (forward lib listed h) (Mem-lines_of name v vs m)

  Mem-forward :
      (h : HeaderMap) (name v : Bytes) (vs : List Bytes)
      → Memᴰ (name, vs) h
      → Memᴰ v vs
      → is_dropped lib listed name ≡ false
      → Memᴰ (name, v) (forward lib listed h)
  unfolding forward
  Mem-forward [] name v vs m n d = elim m [ ]
  Mem-forward ((key, ws) ∷ h) name v vs (head e) n d =
      subst (λ k. Memᴰ (k, v) (forward lib listed ((key, ws) ∷ h))) (sym (ap (λ p. p.0) e))
        (own_kept (is_dropped lib listed key) key v ws h
          (subst (λ k. is_dropped lib listed k ≡ false) (ap (λ p. p.0) e) d)
          (subst (λ ws. Memᴰ v ws) (ap (λ p. p.1) e) n))
  Mem-forward ((key, ws) ∷ h) name v vs (tail m) n d =
      kept (is_dropped lib listed key) key ws h (name, v) (Mem-forward h name v vs m n d)

-- The line is a value of a key of the response, and its name is neither one of those for one hop nor listed in
-- Connection.
abbrev pub IsRelayed : HttpLib → HeaderMap → HeaderLine → Type 0
IsRelayed lib h (name, v) =
    (vs : List Bytes) × Memᴰ (name, vs) h
    × Memᴰ v vs
    × IsEndToEnd lib (values (ascii_bytes "Connection") h) name

-- The visitor is sent a header line exactly if the local app's response has it, and its name is neither one of
-- those for one hop nor listed in Connection.
pub response_headers-IsRelayed :
    (lib : HttpLib) (h : HeaderMap) (name v : Bytes)
    → Memᴰ (name, v) (response_headers lib h) ↔ IsRelayed lib h (name, v)
unfolding response_headers
response_headers-IsRelayed lib h name v =
    let ws : List Bytes = values (ascii_bytes "Connection") h in
    (
      λ m.
          let (vs, k, n, d) = forward-IsForwarded lib (listed_in lib ws) h (name, v) m in
          (vs, k, n, kept-IsEndToEnd lib ws name d),
      λ f.
          let (vs, k, n, e) = f in
          Mem-forward lib (listed_in lib ws) h name v vs k n (IsEndToEnd-kept lib ws name e),
    )
