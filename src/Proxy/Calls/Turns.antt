-- ===== src/Proxy/Calls/Turns.antt =====
-- What the calls of `GetRemoteAddr` return: one at a time, and several at once.
use mathlib.Core.Option.{some-injective}
use route_server.Prelude.{
  ℕ, zero, suc, Option, none, some, List, [], ◌∷◌, ◌≡◌, ◌⊎◌, refl, sym, ap, subst, inl, inr,
  get_elem?, set, take, drop, length,
}
use route_server.Proxy.Relay.{remote_addr}
use route_server.Proxy.Calls.Single.{
  IsRest, Quiet, Only, take-append, set-cases, Only-start, Only-same, waiting_not_holding,
  Quiet-set,
}
use route_server.Proxy.Calls.{
  Reply, Phase, Loop, State, asking, waiting, holding, returned, in_buf, one_byte, idle, asked,
  wrote, reconnected, replying, bytes_of, read_into, Step, Reach, start,
}
use route_server.Proxy.Calls.Stages.{
  AtWork, Right, RightReply, Stage, quiet, sent, accepted, replied, offered, taken, accept-Stage,
  work-Stage, put-Stage, receive-Stage, Right-of_RightReply, read-RightReply,
}

module _ (Answers : List ℕ → List ℕ → Type 0) (Greets : List ℕ → Type 0) where
  -- Every call that has returned has its own answer or an error.
  abbrev pub Served : State → Type 0
  Served s =
      (i : ℕ) (p : List ℕ) (a : Option (List ℕ))
      → get_elem? s.calls i ≡ some (returned p a)
      → Right Answers Greets p a

  -- A step of a call that does not return keeps what has been returned.
  Served-set :
      (s : State) (i : ℕ) (c d : Phase)
      → get_elem? s.calls i ≡ some c
      → ((p : List ℕ) (a : Option (List ℕ)) → d ≡ returned p a → Right Answers Greets p a)
      → Served s
      → (j : ℕ) (p : List ℕ) (a : Option (List ℕ))
      → get_elem? (set s.calls i d) j ≡ some (returned p a)
      → Right Answers Greets p a
  Served-set s i c d at new served j p a h = elim (set-cases s.calls i j c d (returned p a) at h) [
    | inl (here, e) ↦ new p a (sym e)
    | inr (apart, before) ↦ served j p a before
  ]

  -- The state of the channels and of the calls, and what has been returned.
  record Orderly (s : State) : Type 0 where
    stage : Stage Answers Greets s
    served : Served s

  send-Orderly :
      (s : State) (i : ℕ) (p : List ℕ)
      → Quiet s
      → get_elem? s.calls i ≡ some (asking p)
      → s.inbox ≡ none
      → Orderly s
      → Orderly (record s { inbox = some p; calls = set s.calls i (waiting p) })
  send-Orderly s i p rest at free o = record {
    stage = moved o.stage;
    served = Served-set s i (asking p) (waiting p) at (λ q a e. absurd (cc)) o.served;
  }
    where
      moved :
          Stage Answers Greets s
          → Stage Answers Greets (record s { inbox = some p; calls = set s.calls i (waiting p) })
      moved (quiet _ _ e1 e2) =
          sent i p (Only-start s.calls i (asking p) (waiting p) rest at) refl e1 e2
      moved (sent j q o _ _ _) = absurd (rest j _ o.at)
      moved (accepted j q o _ _ _) = absurd (rest j _ o.at)
      moved (replied j q r o _ _ _ _) = absurd (rest j _ o.at)
      moved (offered j q r o _ _ _ _) = absurd (rest j _ o.at)
      moved (taken j q r o _ _ _ _) = absurd (rest j _ o.at)

  convert-Orderly :
      (s : State) (i : ℕ) (p : List ℕ) (r : Reply)
      → get_elem? s.calls i ≡ some (holding p r)
      → Orderly s
      → Orderly (record s { calls = set s.calls i (returned p (remote_addr (bytes_of r s.buf))) })
  convert-Orderly s i p r at o = by_stage o.stage
    where
      done : Phase
      done = returned p (remote_addr (bytes_of r s.buf))

      by_stage :
          Stage Answers Greets s
          → Orderly
              (record s { calls = set s.calls i (returned p (remote_addr (bytes_of r s.buf))) })
      by_stage (quiet rest _ _ _) = absurd (rest i (holding p r) at)
      by_stage (sent j q k _ _ _) = absurd (waiting_not_holding p q r i j s.calls k at)
      by_stage (accepted j q k _ _ _) = absurd (waiting_not_holding p q r i j s.calls k at)
      by_stage (replied j q _ k _ _ _ _) = absurd (waiting_not_holding p q r i j s.calls k at)
      by_stage (offered j q _ k _ _ _ _) = absurd (waiting_not_holding p q r i j s.calls k at)
      by_stage (taken j q r' k e e1 e2 ok) =
          let (here, same) = Only-same s.calls j i (holding q r') (holding p r) k at (λ b. b) in
          let port : q ≡ p = cc in
          let reply : r' ≡ r = cc in
          let mine : Only i (holding p r) s.calls =
            subst (λ n. Only n (holding p r) s.calls) here (subst (λ c. Only j c s.calls) same k) in
          let right : RightReply Answers Greets p r s.buf =
            subst (λ t. RightReply Answers Greets p t s.buf) reply
              (subst (λ t. RightReply Answers Greets t r' s.buf) port ok) in
          record {
            stage = quiet (Quiet-set s.calls i (holding p r) _ mine tt) e e1 e2;
            served =
                Served-set s i (holding p r) _ at
                  (λ p' a h.
                    let port' : p ≡ p' = cc in
                    let addr : remote_addr (bytes_of r s.buf) ≡ a = cc in
                    subst (λ t. Right Answers Greets t a) port'
                      (subst (Right Answers Greets p) addr
                        (Right-of_RightReply Answers Greets p r s.buf right)))
                  o.served;
          }

  -- The loop goes on for its port.
  work-Orderly :
      (s : State) (p : List ℕ) (l : Loop) (buf : List ℕ)
      → AtWork p s.loop
      → AtWork p l ⊎ ((r : Reply) × (l ≡ replying r) × RightReply Answers Greets p r buf)
      → Orderly s
      → Orderly (record s { buf = buf; loop = l })
  work-Orderly s p l buf busy ok o = record {
    stage = work-Stage Answers Greets s p l buf busy ok o.stage;
    served = o.served;
  }

  Step-Orderly : {s t : State} → Step Answers Greets Quiet s t → Orderly s → Orderly t
  Step-Orderly (Step.send s i p rest at free) o = send-Orderly s i p rest at free o
  Step-Orderly (Step.accept s p free full) o = record {
    stage = accept-Stage Answers Greets s p full o.stage;
    served = o.served;
  }
  Step-Orderly (Step.write s p busy) o =
      work-Orderly s p (wrote p) s.buf (inl busy) (inl (inr (inl refl))) o
  Step-Orderly (Step.write_fails s p busy) o =
      work-Orderly s p (replying one_byte) s.buf (inl busy) (inr (one_byte, refl, inl refl)) o
  Step-Orderly (Step.read s p bytes busy from) o =
      work-Orderly s p _ _ (inr (inl busy))
        (inr (_, refl, read-RightReply Answers Greets p bytes s.buf (inl from))) o
  Step-Orderly (Step.read_fails s p busy) o =
      work-Orderly s p (reconnected p) s.buf (inr (inl busy)) (inl (inr (inr refl))) o
  Step-Orderly (Step.read_again s p bytes busy from) o =
      work-Orderly s p _ _ (inr (inr busy))
        (inr (_, refl, read-RightReply Answers Greets p bytes s.buf (inr from))) o
  Step-Orderly (Step.read_again_fails s p busy) o =
      work-Orderly s p (replying one_byte) s.buf (inr (inr busy)) (inr (one_byte, refl, inl refl)) o
  Step-Orderly (Step.put s r busy free) o = record {
    stage = put-Stage Answers Greets s r busy o.stage;
    served = o.served;
  }
  Step-Orderly (Step.receive s i p r at full) o = record {
    stage = receive-Stage Answers Greets s i p r at full o.stage;
    served = Served-set s i (waiting p) (holding p r) at (λ q a e. absurd (cc)) o.served;
  }
  Step-Orderly (Step.convert s i p r at) o = convert-Orderly s i p r at o

  Reach-Orderly : {s t : State} → Reach Answers Greets Quiet s t → Orderly s → Orderly t
  Reach-Orderly Reach.here o = o
  Reach-Orderly (Reach.next r st) o = Step-Orderly st (Reach-Orderly r o)

  all_asking :
      (ports : List (List ℕ)) (i : ℕ) (c : Phase)
      → get_elem? (start ports).calls i ≡ some c
      → (p : List ℕ) × (c ≡ asking p)
  all_asking [] i c h = absurd (cc)
  all_asking (p ∷ ports) zero c h = (p, sym (some-injective _ _ h))
  all_asking (p ∷ ports) (suc i) c h = all_asking ports i c h

  start-Orderly : (ports : List (List ℕ)) → Orderly (start ports)
  start-Orderly ports = record {
    stage =
        quiet (λ i c h. let (p, e) = all_asking ports i c h in subst IsRest (sym e) tt) refl refl
          refl;
    served = λ i p a h. let (q, e) = all_asking ports i _ h in absurd (cc);
  }

  -- While a call sends only when no other is under way, a call that returns has returned an error,
  -- what a read gave on a connection on which its own port was the last written, or what a read gave on
  -- a new connection on which nothing was written.
  pub Reach-Right :
      (ports : List (List ℕ)) (s : State) (i : ℕ) (port : List ℕ) (a : Option (List ℕ))
      → Reach Answers Greets Quiet (start ports) s
      → get_elem? s.calls i ≡ some (returned port a)
      → Right Answers Greets port a
  Reach-Right ports s i port a r h =
      let o = Reach-Orderly r (start-Orderly ports) in o.served i port a h

  -- With two calls at once, the second can return any answer that a read can give to the port of the
  -- first.
  pub Reach-mixed :
      (p q bytes : List ℕ)
      → Answers p bytes
      → (s : State) × Reach Answers Greets (λ _. Unit) (start (p ∷ q ∷ [])) s
        × (get_elem? s.calls 1 ≡ some (returned q (remote_addr (take 1024 bytes))))
  Reach-mixed p q bytes given =
      let part : List ℕ = take 1024 bytes in
      let n : ℕ = length part in
      let s0 : State = start (p ∷ q ∷ []) in
      let s1 : State = record s0 { inbox = some p; calls = waiting p ∷ asking q ∷ [] } in
      let s2 : State = record s1 { inbox = none; loop = asked p } in
      let s3 : State = record s2 { loop = wrote p } in
      let s4 : State = record s3 { buf = read_into part s3.buf; loop = replying (in_buf n) } in
      let s5 : State = record s4 { outbox = some (in_buf n); loop = idle } in
      let s6 : State = record s5 { inbox = some q; calls = waiting p ∷ waiting q ∷ [] } in
      let s7 : State = record s6 { outbox = none; calls = waiting p ∷ holding q (in_buf n) ∷ [] } in
      let r1 : Reach Answers Greets (λ _. Unit) s0 s1 =
        Reach.next Reach.here (Step.send s0 0 p tt refl refl) in
      let r2 : Reach Answers Greets (λ _. Unit) s0 s2 =
        Reach.next r1 (Step.accept s1 p refl refl) in
      let r3 : Reach Answers Greets (λ _. Unit) s0 s3 = Reach.next r2 (Step.write s2 p refl) in
      let r4 : Reach Answers Greets (λ _. Unit) s0 s4 =
        Reach.next r3 (Step.read s3 p bytes refl given) in
      let r5 : Reach Answers Greets (λ _. Unit) s0 s5 =
        Reach.next r4 (Step.put s4 (in_buf n) refl refl) in
      let r6 : Reach Answers Greets (λ _. Unit) s0 s6 =
        Reach.next r5 (Step.send s5 1 q tt refl refl) in
      let r7 : Reach Answers Greets (λ _. Unit) s0 s7 =
        Reach.next r6 (Step.receive s6 1 q (in_buf n) refl refl) in
      (
        _,
        Reach.next r7 (Step.convert s7 1 q (in_buf n) refl),
        ap (λ t. some (returned q (remote_addr t))) (take-append part (drop n s3.buf)),
      )
