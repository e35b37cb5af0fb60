-- ===== src/Proxy/Calls/Stages.antt =====
-- Where the one call of `GetRemoteAddr` is that is under way, and how the steps move it on.
use mathlib.Core.Option.{some-injective}
use route_server.Prelude.{
  ℕ, Option, none, some, List, ◌≡◌, ◌⊎◌, refl, sym, ap, ◌∙◌, subst, inl, inr, get_elem?, set, take,
  drop, length, ◌≢◌,
}
use route_server.Proxy.Relay.{remote_addr}
use route_server.Proxy.Calls.Single.{Quiet, Only, take-append, Only-set, Only-same}
use route_server.Proxy.Calls.{
  Reply, Loop, State, waiting, holding, in_buf, one_byte, idle, asked, wrote, reconnected, replying,
  bytes_of, read_into,
}

-- The loop has taken the port, and has no reply yet.
abbrev pub AtWork : List ℕ → Loop → Type 0
AtWork p l = (l ≡ asked p) ⊎ ((l ≡ wrote p) ⊎ (l ≡ reconnected p))

-- A loop at work is at no other place, and has one port.
AtWork-port : (p q : List ℕ) (l : Loop) → AtWork p l → AtWork q l → p ≡ q
AtWork-port p q l (inl e) (inl e1) = cc
AtWork-port p q l (inl e) (inr (inl e1)) = absurd (cc)
AtWork-port p q l (inl e) (inr (inr e1)) = absurd (cc)
AtWork-port p q l (inr (inl e)) (inl e1) = absurd (cc)
AtWork-port p q l (inr (inl e)) (inr (inl e1)) = cc
AtWork-port p q l (inr (inl e)) (inr (inr e1)) = absurd (cc)
AtWork-port p q l (inr (inr e)) (inl e1) = absurd (cc)
AtWork-port p q l (inr (inr e)) (inr (inl e1)) = absurd (cc)
AtWork-port p q l (inr (inr e)) (inr (inr e1)) = cc

AtWork-not_idle : (p : List ℕ) (l : Loop) → AtWork p l → l ≢ idle
AtWork-not_idle p l (inl e) e1 = absurd (cc)
AtWork-not_idle p l (inr (inl e)) e1 = absurd (cc)
AtWork-not_idle p l (inr (inr e)) e1 = absurd (cc)

AtWork-not_replying : (p : List ℕ) (r : Reply) (l : Loop) → AtWork p l → l ≢ replying r
AtWork-not_replying p r l (inl e) e1 = absurd (cc)
AtWork-not_replying p r l (inr (inl e)) e1 = absurd (cc)
AtWork-not_replying p r l (inr (inr e)) e1 = absurd (cc)

module _ (Answers : List ℕ → List ℕ → Type 0) (Greets : List ℕ → Type 0) where
  -- What a read for the port may give.
  abbrev pub ReadFor : List ℕ → List ℕ → Type 0
  ReadFor port bytes = Answers port bytes ⊎ Greets bytes

  -- An address that the call for the port may return.
  abbrev pub Right : List ℕ → Option (List ℕ) → Type 0
  Right port a =
      (a ≡ none) ⊎ ((bytes : List ℕ) × ReadFor port bytes × (a ≡ remote_addr (take 1024 bytes)))

  -- A reply that was read for the port, or says that there is none.
  abbrev pub RightReply : List ℕ → Reply → List ℕ → Type 0
  RightReply port r buf =
      (r ≡ one_byte) ⊎ ((bytes : List ℕ) × ReadFor port bytes × (bytes_of r buf ≡ take 1024 bytes))

  -- Where the one call is that is under way.
  pub data Stage (s : State) : Type 0 where
    quiet : Quiet s → s.inbox ≡ none → s.outbox ≡ none → s.loop ≡ idle → Stage s
    sent :
        (i : ℕ) (p : List ℕ)
        → Only i (waiting p) s.calls
        → s.inbox ≡ some p
        → s.outbox ≡ none
        → s.loop ≡ idle
        → Stage s
    accepted :
        (i : ℕ) (p : List ℕ)
        → Only i (waiting p) s.calls
        → s.inbox ≡ none
        → s.outbox ≡ none
        → AtWork p s.loop
        → Stage s
    replied :
        (i : ℕ) (p : List ℕ) (r : Reply)
        → Only i (waiting p) s.calls
        → s.inbox ≡ none
        → s.outbox ≡ none
        → s.loop ≡ replying r
        → RightReply p r s.buf
        → Stage s
    offered :
        (i : ℕ) (p : List ℕ) (r : Reply)
        → Only i (waiting p) s.calls
        → s.inbox ≡ none
        → s.outbox ≡ some r
        → s.loop ≡ idle
        → RightReply p r s.buf
        → Stage s
    taken :
        (i : ℕ) (p : List ℕ) (r : Reply)
        → Only i (holding p r) s.calls
        → s.inbox ≡ none
        → s.outbox ≡ none
        → s.loop ≡ idle
        → RightReply p r s.buf
        → Stage s

  pub accept-Stage :
      (s : State) (p : List ℕ)
      → s.inbox ≡ some p
      → Stage s
      → Stage (record s { inbox = none; loop = asked p })
  accept-Stage s p full (quiet _ e _ _) = absurd (cc)
  accept-Stage s p full (sent j q o e e1 _) =
      let same : q ≡ p = some-injective _ _ (sym e ∙ full) in
      accepted j q o refl e1 (inl (ap asked (sym same)))
  accept-Stage s p full (accepted j q o e _ _) = absurd (cc)
  accept-Stage s p full (replied j q r o e _ _ _) = absurd (cc)
  accept-Stage s p full (offered j q r o e _ _ _) = absurd (cc)
  accept-Stage s p full (taken j q r o e _ _ _) = absurd (cc)

  -- A step of a loop at work, to a reply or to another place for the same port.
  pub work-Stage :
      (s : State) (p : List ℕ) (l : Loop) (buf : List ℕ)
      → AtWork p s.loop
      → AtWork p l ⊎ ((r : Reply) × (l ≡ replying r) × RightReply p r buf)
      → Stage s
      → Stage (record s { buf = buf; loop = l })
  work-Stage s p l buf busy ok (quiet _ _ _ e) = absurd (AtWork-not_idle p s.loop busy e)
  work-Stage s p l buf busy ok (sent j q o _ _ e) = absurd (AtWork-not_idle p s.loop busy e)
  work-Stage s p l buf busy (inl w) (accepted j q o e e1 e2) =
      let same = AtWork-port p q s.loop busy e2 in
      accepted j q o e e1 (subst (λ t. AtWork t l) same w)
  work-Stage s p l buf busy (inr (r, at, ok)) (accepted j q o e e1 e2) =
      let same = AtWork-port p q s.loop busy e2 in
      replied j q r o e e1 at (subst (λ t. RightReply t r buf) same ok)
  work-Stage s p l buf busy ok (replied j q r o _ _ e _) =
      absurd (AtWork-not_replying p r s.loop busy e)
  work-Stage s p l buf busy ok (offered j q r o _ _ e _) = absurd (AtWork-not_idle p s.loop busy e)
  work-Stage s p l buf busy ok (taken j q r o _ _ e _) = absurd (AtWork-not_idle p s.loop busy e)

  pub put-Stage :
      (s : State) (r : Reply)
      → s.loop ≡ replying r
      → Stage s
      → Stage (record s { outbox = some r; loop = idle })
  put-Stage s r busy (quiet _ _ _ e) = absurd (cc)
  put-Stage s r busy (sent j q o _ _ e) = absurd (cc)
  put-Stage s r busy (accepted j q o _ _ e) = absurd (AtWork-not_replying q r s.loop e busy)
  put-Stage s r busy (replied j q r' o e _ e2 ok) =
      let same : r' ≡ r = cc in
      offered j q r o e refl refl (subst (λ t. RightReply q t s.buf) same ok)
  put-Stage s r busy (offered j q r' o _ _ e _) = absurd (cc)
  put-Stage s r busy (taken j q r' o _ _ e _) = absurd (cc)

  pub receive-Stage :
      (s : State) (i : ℕ) (p : List ℕ) (r : Reply)
      → get_elem? s.calls i ≡ some (waiting p)
      → s.outbox ≡ some r
      → Stage s
      → Stage (record s { outbox = none; calls = set s.calls i (holding p r) })
  receive-Stage s i p r at full (quiet _ _ e _) = absurd (cc)
  receive-Stage s i p r at full (sent j q o _ e _) = absurd (cc)
  receive-Stage s i p r at full (accepted j q o _ e _) = absurd (cc)
  receive-Stage s i p r at full (replied j q r' o _ e _ _) = absurd (cc)
  receive-Stage s i p r at full (offered j q r' o e e1 e2 ok) =
      let (here, same) = Only-same s.calls j i (waiting q) (waiting p) o at (λ b. b) in
      let reply : r' ≡ r = some-injective _ _ (sym e1 ∙ full) in
      let port : q ≡ p = cc in
      let mine : Only i (waiting p) s.calls =
        subst (λ k. Only k (waiting p) s.calls) here (subst (λ c. Only j c s.calls) same o) in
      taken i p r (Only-set s.calls i (waiting p) (holding p r) mine) e refl e2
        (subst (λ t. RightReply p t s.buf) reply (subst (λ t. RightReply t r' s.buf) port ok))
  receive-Stage s i p r at full (taken j q r' o _ e _ _) = absurd (cc)

  -- The reply that the call holds, when it looks at the bytes.
  pub Right-of_RightReply :
      (p : List ℕ) (r : Reply) (buf : List ℕ)
      → RightReply p r buf
      → Right p (remote_addr (bytes_of r buf))
  unfolding remote_addr
  Right-of_RightReply p r buf (inl e) = inl (ap (λ t. remote_addr (bytes_of t buf)) e)
  Right-of_RightReply p r buf (inr (bytes, from, e)) = inr (bytes, from, ap remote_addr e)

  -- The bytes that a read for the port puts into the buffer are a right reply.
  pub read-RightReply :
      (p bytes buf : List ℕ)
      → ReadFor p bytes
      → RightReply p (in_buf (length (take 1024 bytes))) (read_into (take 1024 bytes) buf)
  read-RightReply p bytes buf from =
      let part : List ℕ = take 1024 bytes in
      inr (bytes, from, take-append part (drop (length part) buf))
