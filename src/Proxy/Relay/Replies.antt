-- ===== src/Proxy/Relay/Replies.antt =====
-- What the loop of `SyncServer` replies.
use mathlib.Core.Option.{some-injective}
use mathlib.Core.List.{Mem, mem-cons_self, mem-cons_of_mem}
use route_server.Prelude.{
  ℕ, ◌+◌, ◌≤◌, Bool, if◌then◌else◌, Option, none, some, List, [], ◌∷◌, take, length, ◌≡◌, refl, sym,
  ap, ◌∙◌, subst, ◌⊎◌, inl, inr, arith, >>=-eq-some, Bool-cases,
}
use route_server.Proxy.Relay.{
  Link, write_one, read_one, connect_from, connect, write, read, reply_of, or_read_again,
  read_reply, serve, sync_from, sync_server,
}

-- The byte 1, or what one of the reads gives, up to 1024 bytes of it.
abbrev pub Source : List (Option (List ℕ)) → List ℕ → Type 0
Source reads reply =
    (reply ≡ 1 ∷ []) ⊎ ((bytes : List ℕ) × Mem (some bytes) reads × (reply ≡ take 1024 bytes))

-- The port is the last that was written on the connection in use, or nothing was.
abbrev pub Written : List ℕ → Link → Type 0
Written port l = (l.written ≡ []) ⊎ ((ps : List (List ℕ)) × (l.written ≡ port ∷ ps))

-- From `l` to `l'` one reply was sent and at most `n` connections were made; the connection that is
-- then in use carried the port last, or nothing.
pub record Answer (n : ℕ) (port : List ℕ) (l l' : Link) : Type 0 where
  pub reply : List ℕ
  pub sent : l'.out ≡ reply ∷ l.out
  pub source : Source l.reads reply
  pub made : l'.made ≤ l.made + n
  pub written : Written port l'

-- After some writes and connections: nothing is read or sent yet.
record Apart (n : ℕ) (l l' : Link) : Type 0 where
  reads : l'.reads ≡ l.reads
  made : l'.made ≤ l.made + n
  out : l'.out ≡ l.out

write-Apart :
    (port : List ℕ) (l : Link) (ok : Bool) (l' : Link) → write port l ≡ some (ok, l') → Apart 0 l l'
write-Apart port l ok l' h = by_writes l.writes h
  where
    by_writes : (ws : List Bool) → write_one port ws l ≡ some (ok, l') → Apart 0 l l'
    by_writes [] h = absurd (cc)
    by_writes (w ∷ ws) h =
        let same = some-injective _ _ h in
        subst (λ (p : Bool × Link). Apart 0 l p.1) same
          (record { reads = refl; made = omega arith; out = refl })

-- What is written on the connection after a write.
write-written :
    (port : List ℕ) (l : Link) (ok : Bool) (l' : Link)
    → write port l ≡ some (ok, l')
    → l'.written ≡ (if ok then port ∷ l.written else l.written)
write-written port l ok l' h = by_writes l.writes h
  where
    by_writes :
        (ws : List Bool)
        → write_one port ws l ≡ some (ok, l')
        → l'.written ≡ (if ok then port ∷ l.written else l.written)
    by_writes [] h = absurd (cc)
    by_writes (w ∷ ws) h =
        subst (λ (p : Bool × Link). p.1.written ≡ (if p.0 then port ∷ l.written else l.written))
          (some-injective _ _ h) refl

connect-Apart : (l l' : Link) → connect l ≡ some l' → Apart 1 l l' × (l'.written ≡ [])
unfolding connect
connect-Apart l l' h =
    let (ds, e, h1) = >>=-eq-some (connect_from l.dials) _ h in
    subst (λ (k : Link). Apart 1 l k × (k.written ≡ [])) (some-injective _ _ h1)
      (record { reads = refl; made = omega arith; out = refl }, refl)

-- A read takes the first of what is to come, and changes nothing else.
record Taken (r : Option (List ℕ)) (l l' : Link) : Type 0 where
  taken : Mem r l.reads
  left : (x : Option (List ℕ)) → Mem x l'.reads → Mem x l.reads
  made : l'.made ≡ l.made
  out : l'.out ≡ l.out
  written : l'.written ≡ l.written

read-Taken : (l : Link) (r : Option (List ℕ)) (l' : Link) → read l ≡ some (r, l') → Taken r l l'
read-Taken l r l' h = by_reads l.reads refl h
  where
    by_reads :
        (rs : List (Option (List ℕ))) → rs ≡ l.reads → read_one rs l ≡ some (r, l') → Taken r l l'
    by_reads [] e h = absurd (cc)
    by_reads (q ∷ rs) e h =
        subst (λ (p : Option (List ℕ) × Link). Taken p.0 l p.1) (some-injective _ _ h)
          (record {
            taken = subst (λ (ys : List (Option (List ℕ))). Mem q ys) e mem-cons_self;
            left = λ x m. subst (λ (ys : List (Option (List ℕ))). Mem x ys) e (mem-cons_of_mem q m);
            made = refl;
            out = refl;
            written = refl;
          })

reply_of-Source :
    (rs : List (Option (List ℕ))) (r : Option (List ℕ)) → Mem r rs → Source rs (reply_of r)
reply_of-Source rs none m = inl refl
reply_of-Source rs (some bytes) m = inr (bytes, m, refl)

or_read_again-Answer :
    (port : List ℕ) (r : Option (List ℕ)) (l l1 l' : Link)
    → Taken r l l1
    → Written port l
    → or_read_again r l1 ≡ some l'
    → Answer 1 port l l'
unfolding or_read_again
or_read_again-Answer port (some bytes) l l1 l' t w h =
    let made = t.made in
    subst (Answer 1 port l) (some-injective _ _ h) (record {
      reply = take 1024 bytes;
      sent = ap (λ o. take 1024 bytes ∷ o) t.out;
      source = inr (bytes, t.taken, refl);
      made = omega arith;
      written =
          subst (λ (ws : List (List ℕ)). (ws ≡ []) ⊎ ((ps : List (List ℕ)) × (ws ≡ port ∷ ps)))
            (sym t.written) w;
    })
or_read_again-Answer port none l l1 l' t w h =
    let (l2, e2, h2) = >>=-eq-some (connect l1) _ h in
    let ((r, l3), e3, h3) = >>=-eq-some (read l2) _ h2 in
    let (a, fresh) = connect-Apart l1 l2 e2 in
    let t3 = read-Taken l2 r l3 e3 in
    let made = t.made in
    let made2 = a.made in
    let made3 = t3.made in
    let from : Mem r l.reads =
      t.left r (subst (λ (ys : List (Option (List ℕ))). Mem r ys) a.reads t3.taken) in
    subst (Answer 1 port l) (some-injective _ _ h3) (record {
      reply = reply_of r;
      sent = ap (λ o. reply_of r ∷ o) (t3.out ∙ a.out ∙ t.out);
      source = reply_of-Source l.reads r from;
      made = omega arith;
      written = inl (t3.written ∙ fresh);
    })

read_reply-Answer :
    (port : List ℕ) (l l' : Link) → Written port l → read_reply l ≡ some l' → Answer 1 port l l'
unfolding read_reply
read_reply-Answer port l l' w h =
    let ((r, l1), e1, h1) = >>=-eq-some (read l) _ h in
    or_read_again-Answer port r l l1 l' (read-Taken l r l1 e1) w h1

-- From an earlier link, with `k` connections more.
Answer-earlier :
    (k n : ℕ) (port : List ℕ) (l l1 l' : Link)
    → Apart k l l1
    → Answer n port l1 l'
    → Answer (k + n) port l l'
Answer-earlier k n port l l1 l' p a = record {
  reply = a.reply;
  sent = a.sent ∙ ap (λ o. a.reply ∷ o) p.out;
  source = subst (λ (rs : List (Option (List ℕ))). Source rs a.reply) p.reads a.source;
  made = let le = a.made in let more = p.made in omega arith;
  written = a.written;
}

Apart-trans : (k n : ℕ) (l l1 l2 : Link) → Apart k l l1 → Apart n l1 l2 → Apart (k + n) l l2
Apart-trans k n l l1 l2 p q = record {
  reads = q.reads ∙ p.reads;
  made = let le = q.made in let more = p.made in omega arith;
  out = q.out ∙ p.out;
}

-- For a port that it gets through, the loop sends one reply: the byte 1, or what a read from the client
-- gave, up to 1024 bytes of it. For one port it connects anew twice at most, and the connection in
-- use at the end is one on which the port was the last written, or nothing yet.
pub serve-Answer : (port : List ℕ) (l l' : Link) → serve port l ≡ some l' → Answer 2 port l l'
unfolding serve
serve-Answer port l l' h =
    let ((ok, l1), e1, h1) = >>=-eq-some (write port l) _ h in
    let p1 = write-Apart port l ok l1 e1 in
    elim (Bool-cases ok) [
      | inl arrived ↦
          let w = rw arrived at (write-written port l ok l1 e1) in
          let a = read_reply-Answer port l1 l' (inr (l.written, w)) (rw arrived at h1) in
          Answer-earlier 1 1 port l l1 l'
            (record { reads = p1.reads; made = let m = p1.made in omega arith; out = p1.out }) a
      | inr failed ↦
          let (l2, e2, h2) = >>=-eq-some (connect l1) _ (rw failed at h1) in
          let ((again, l3), e3, h3) = >>=-eq-some (write port l2) _ h2 in
          let (p2, fresh) = connect-Apart l1 l2 e2 in
          let p3 = write-Apart port l2 again l3 e3 in
          let p = Apart-trans 1 0 l l2 l3 (Apart-trans 0 1 l l1 l2 p1 p2) p3 in
          elim (Bool-cases again) [
            | inl arrived ↦
                let w = rw arrived at (write-written port l2 again l3 e3) in
                let a = read_reply-Answer port l3 l' (inr (l2.written, w)) (rw arrived at h3) in
                Answer-earlier 1 1 port l l3 l' p a
            | inr lost ↦ subst (Answer 2 port l) (some-injective _ _ (rw lost at h3)) (record {
              reply = 1 ∷ [];
              sent = ap (λ o. (1 ∷ []) ∷ o) p.out;
              source = inl refl;
              made = let m = p.made in omega arith;
              written = inl ((rw lost at (write-written port l2 again l3 e3)) ∙ fresh);
            })
          ]
    ]

sync_from-length :
    (ports : List (List ℕ)) (l l' : Link)
    → sync_from ports l ≡ some l'
    → length l'.out ≡ length l.out + length ports
unfolding sync_from
sync_from-length [] l l' h =
    let same = ap (λ (k : Link). length k.out) (some-injective _ _ h) in omega (arith, same)
sync_from-length (port ∷ ports) l l' h =
    let (l1, e1, h1) = >>=-eq-some (serve port l) _ h in
    let one = ap length (serve-Answer port l l1 e1).sent in
    omega (arith, one, sync_from-length ports l1 l' h1)

-- If `SyncServer` gets through a list of ports, it has sent one reply for each, whatever fails
-- meanwhile.
pub sync_server-length :
    (ports : List (List ℕ)) (l l' : Link)
    → sync_server ports l ≡ some l'
    → length l'.out ≡ length l.out + length ports
unfolding sync_server
sync_server-length ports l l' h =
    let (l1, e1, h1) = >>=-eq-some (connect l) _ h in
    let none_sent = ap length (connect-Apart l l1 e1).0.out in
    omega (arith, none_sent, sync_from-length ports l1 l' h1)
