-- ===== src/Proxy/Check/Schemes.antt =====
-- The scheme that `Check` settles on for a proxy of unknown scheme.
use mathlib.Core.Option.{some-injective}
use native.Mathlib.Decide.{ℕ_discrete}
use route_server.Prelude.{
  ℕ, zero, suc, ◌+◌, ◌≤◌, ◌<◌, ℤ, pos, negsuc, Option, none, some, List, [], ◌∷◌, ◌++◌, ◌≡◌, ◌≢◌,
  refl, sym, ap, ◌∙◌, arith, >>=-eq-some, Option-cases, inl, inr, get_elem?,
}
use route_server.Comm.{ip_int_to_string}
use route_server.Proxy.Info.{ProxyInfo, string, schemes, decimal_word}
use route_server.Proxy.Check.{try_schemes, no_order, check}

-- The text of a proxy under a scheme.
abbrev full : List ℕ → ProxyInfo → List ℕ
full s p =
    s ++ (b':' ∷ b'/' ∷ b'/' ∷ p.au ++ (ip_int_to_string p.ip_int ++ (b':' ∷ decimal_word p.port)))

abbrev or_no_scheme : Option (List ℕ) → List ℕ
or_no_scheme none = []
or_no_scheme (some s) = s

abbrev pub text_under : ProxyInfo → ℕ → List ℕ
text_under p i = full (or_no_scheme (get_elem? schemes i)) p

-- A proxy without a cached text, under the scheme `i`.
abbrev under : ProxyInfo → ℕ → ProxyInfo
under p i = record p { scheme = pos i; url = [] }

string-under :
    (p : ProxyInfo) (i : ℕ)
    → i < 6
    → string (under p i) ≡ some (record p { scheme = pos i; url = text_under p i })
unfolding string
string-under p zero l = refl
string-under p (suc zero) l = refl
string-under p (suc (suc zero)) l = refl
string-under p (suc (suc (suc zero))) l = refl
string-under p (suc (suc (suc (suc zero)))) l = refl
string-under p (suc (suc (suc (suc (suc zero))))) l = refl
string-under p (suc (suc (suc (suc (suc (suc i)))))) l = absurd (omega arith)

-- The proxy has the first scheme, from `i` on, under which it connects.
pub record FirstScheme (dial : List ℕ → Option ℕ × ℤ) (i : ℕ) (p q : ProxyInfo) : Type 0 where
  pub index : ℕ
  pub scheme_eq : q.scheme ≡ pos index
  pub connects : (dial (text_under p index)).0 ≡ none
  pub fails : (j : ℕ) → i ≤ j → j < index → (dial (text_under p j)).0 ≢ none

some_not_none : (e : ℕ) → some e ≢ none
some_not_none e h = cc

module _ (dial : List ℕ → Option ℕ × ℤ) where
  try_schemes-FirstScheme :
      (n i : ℕ) (err : Option ℕ) (p q : ProxyInfo)
      → i + n ≤ 6
      → (n ≡ 0 → err ≢ none)
      → try_schemes dial n i err (record p { url = [] }) ≡ some (none, q)
      → FirstScheme dial i p q
  unfolding try_schemes
  try_schemes-FirstScheme zero i err p q le some_tried h =
      absurd (some_tried refl (ap (λ (r : Option ℕ × ProxyInfo). r.0) (some-injective _ _ h)))
  try_schemes-FirstScheme (suc n) i err p q le some_tried h =
      let h1 = rw (string-under p i (omega arith)) at h in
      elim (Option-cases (dial (text_under p i)).0) [
        | inl connects ↦
            let same = some-injective _ _ (rw connects at h1) in
            record {
              index = i;
              scheme_eq = sym (ap (λ (r : Option ℕ × ProxyInfo). r.1.scheme) same);
              connects = connects;
              fails = λ j lo hi. absurd (omega arith);
            }
        | inr (e, failed) ↦
            let p' : ProxyInfo = record p { scheme = pos i; order = (dial (text_under p i)).1 } in
            let r =
              try_schemes-FirstScheme n (suc i) (some e) p' q (omega arith) (λ a b. absurd (cc))
                (rw failed at h1) in
            record {
              index = r.index;
              scheme_eq = r.scheme_eq;
              connects = r.connects;
              fails = λ j lo hi. elim (ℕ_discrete i j) [
                | yes same ↦ λ ok.
                    absurd
                      (some_not_none e (sym failed ∙ ap (λ k. (dial (text_under p k)).0) same ∙ ok))
                | no other ↦ r.fails j (omega arith) hi
              ];
            }
      ]

  -- If `Check` finds a proxy with the scheme -1 good, the proxy has the first of the schemes under
  -- which it connects, in the order of `SCHEME`.
  pub check-FirstScheme :
      (p q : ProxyInfo)
      → check dial (record p { scheme = negsuc 0; url = [] }) ≡ some (none, q)
      → FirstScheme dial 0 p q
  unfolding check
  check-FirstScheme p q h =
      let start : ProxyInfo = record p { scheme = negsuc 0 } in
      let (r, e, h1) = >>=-eq-some (try_schemes dial 6 0 none (record start { url = [] })) _ h in
      found r e (some-injective _ _ h1)
    where
      found :
          (r : Option ℕ × ProxyInfo)
          → try_schemes dial 6 0 none (record p { scheme = negsuc 0; url = [] }) ≡ some r
          → no_order dial r ≡ (none, q)
          → FirstScheme dial 0 p q
      found (some e, p') t h1 = absurd (some_not_none e (ap (λ (r : Option ℕ × ProxyInfo). r.0) h1))
      found (none, p') t h1 =
          let f =
            try_schemes-FirstScheme 6 0 none (record p { scheme = negsuc 0 }) q (omega arith)
              (λ a. absurd (omega arith)) (t ∙ ap some h1) in
          record {
            index = f.index;
            scheme_eq = f.scheme_eq;
            connects = f.connects;
            fails = f.fails;
          }
