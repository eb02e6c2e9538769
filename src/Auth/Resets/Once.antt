-- ===== src/Auth/Resets/Once.antt =====
-- A token resets a password once.
use ygate_git.Base.{
  ℕ, ◌≡◌, refl, ◌≢◌, ◌⊎◌, inl, inr, ◌∙◌, sym, subst, Bool, true, false, ◌&&◌, if◌then◌else◌, Option,
  none, some, List, [], ◌∷◌, All, ◌==◌, Bool-cases, ok, arith,
}
use ygate_git.Base.Text.{Text, text_eq_iff}
use ygate_git.Auth.Tables.{
  AppUser, OnceToken, AuthDatabase, is_null, is_unused, invalidate_tokens, mark_token_used,
  is_valid_token, active_user, or_row, get_active_password_reset_token,
}
use ygate_git.Auth.Security.{Crypto, hash_presented_token, new_token}
use ygate_git.Auth.Login.{AuthConfig}
use ygate_git.Auth.Recovery.{FreshToken, once_token, reset_password}
use ygate_git.Auth.Rows.{none-some, All-update}
use ygate_git.Auth.Calls.{Calls, run}
use ygate_git.Auth.Calls.Kept.{IsClosed, AreFresh, run-Q}
use ygate_git.Auth.Resets.{resets-IsClosed}
use ygate_git.Auth.Resets.Done.{reset_password-IsReset}

and_left : (a b : Bool) → (a && b) ≡ true → a ≡ true
and_left a b h = ground arith

some_inj : (s t : Text) → ◌≡◌ {A = Option Text} (some s) (some t) → s ≡ t
some_inj s t h = cc

used_is : (now : ℕ) → is_null (some now) ≡ false
unfolding is_null
used_is now = refl

abbrev used_at_time : ℕ → OnceToken → OnceToken
used_at_time now t = record t { used_at = some now }

null_of :
    (t : OnceToken) (id : ℕ)
    → t.id ≡ id
    → (t.id == id && is_null t.used_at) ≡ false
    → is_null t.used_at ≡ false
null_of t id same other = ground arith

valid_hash :
    (now : ℕ) (hash : Text) (t : OnceToken)
    → is_valid_token now hash t ≡ true
    → (t.token_hash ≡ hash) × (is_null t.used_at ≡ true)
unfolding is_valid_token
valid_hash now hash t h = ((text_eq_iff t.token_hash hash).0 (and_left _ _ h), ground arith)

valid-cases :
    (b : Bool) (x t : OnceToken) (owner : Option AppUser) (u : AppUser)
    (rest : Option (OnceToken × AppUser))
    → (if b then or_row x owner rest else rest) ≡ some (t, u)
    → ((b ≡ true) × (x ≡ t)) ⊎ (rest ≡ some (t, u))
unfolding or_row
valid-cases true x t (some v) u rest e = inl (refl, cc)
valid-cases true x t none u rest e = inr e
valid-cases false x t owner u rest e = inr e

module _ (c : Crypto) (config : AuthConfig) where
  -- The tokens with a hash are used.
  abbrev pub IsSpent : Text → List OnceToken → Type 0
  IsSpent hash ts = All (λ (t : OnceToken). t.token_hash ≡ hash → is_null t.used_at ≡ false) ts

  found-hash :
      (now : ℕ) (hash : Text) (users : List AppUser) (ts : List OnceToken) (t : OnceToken)
      (u : AppUser) (P : OnceToken → Type 0)
      → All P ts
      → get_active_password_reset_token now hash users ts ≡ some (t, u)
      → P t × (is_valid_token now hash t ≡ true)
  unfolding get_active_password_reset_token
  found-hash now hash users [] t u P h e = absurd (none-some (t, u) e)
  found-hash now hash users (x ∷ ts) t u P h e =
      elim (valid-cases (is_valid_token now hash x) x t (active_user x.user_id users) u _ e) [
        | inl (valid, same) ↦
            subst (λ (y : OnceToken). P y × (is_valid_token now hash y ≡ true)) same (h.0, valid)
        | inr rest ↦ found-hash now hash users ts t u P h.1 rest
      ]

  IsSpent-IsClosed :
      (hash : Text) (now : ℕ)
      → IsClosed c config
          (λ fresh. Unit {0})
          (λ (fresh : FreshToken). c.sha256 fresh.reset_bytes ≢ hash)
          now
          (λ db. IsSpent hash db.resets)
  unfolding once_token new_token invalidate_tokens mark_token_used
  IsSpent-IsClosed hash now =
      resets-IsClosed c config (λ (fresh : FreshToken). c.sha256 fresh.reset_bytes ≢ hash) now
        (IsSpent hash)
        (λ fresh u ip ts new h. (
          λ same. absurd (new same),
          All-update (λ (t : OnceToken). t.token_hash ≡ hash → is_null t.used_at ≡ false)
              (is_unused u.id) (used_at_time now) (λ t k same. used_is now) ts h,
        ))
        (λ id ts h.
          All-update (λ (t : OnceToken). t.token_hash ≡ hash → is_null t.used_at ≡ false)
            (λ (t : OnceToken). t.id == id && is_null t.used_at) (used_at_time now)
            (λ t k same. used_is now) ts h)

  marked-IsSpent :
      (hash : Text) (now id : ℕ) (ts : List OnceToken)
      → All (λ (t : OnceToken). t.token_hash ≡ hash → t.id ≡ id) ts
      → IsSpent hash (mark_token_used now id ts)
  unfolding mark_token_used
  marked-IsSpent hash now id [] h = tt
  marked-IsSpent hash now id (x ∷ ts) h =
      let rest = marked-IsSpent hash now id ts h.1 in
      elim (Bool-cases (x.id == id && is_null x.used_at)) [
        | inl marked ↦ rw marked (λ same. used_is now, rest)
        | inr kept ↦ rw kept (λ same. null_of x id (h.0 same) kept, rest)
      ]

  -- A token resets a password once: after it did, no reset with it succeeds, whatever is called in
  -- between, if its hash is not in another row and no later token has it.
  pub reset_password-once :
      (calls : Calls) (before after again : AuthDatabase) (now later : ℕ)
      (salt salt1 new new1 token hash : Text) (ip ip1 : Option Text) (id : ℕ)
      → hash_presented_token c token ≡ some hash
      → All (λ (t : OnceToken). t.token_hash ≡ hash → t.id ≡ id) before.resets
      → AreFresh c config
          (λ fresh. Unit {0})
          (λ (fresh : FreshToken). c.sha256 fresh.reset_bytes ≢ hash)
          calls
      → reset_password c config now salt token new ip before ≡ (ok tt, after)
      → reset_password c config later salt1 token new1 ip1 (run c config calls after)
        ≢ (ok tt, again)
  reset_password-once calls before after again now later salt salt1 new new1 token hash ip ip1 id
        presented unique fresh e e1 =
      let first = reset_password-IsReset c config now salt new ip before token after e in
      let second =
        reset_password-IsReset c config later salt1 new1 ip1 (run c config calls after) token again
          e1 in
      let hash_is : first.hash ≡ hash = some_inj _ _ (sym first.presented ∙ presented) in
      let hash1_is : second.hash ≡ hash = some_inj _ _ (sym second.presented ∙ presented) in
      let (unique_used, valid) =
        found-hash now first.hash before.users before.resets first.used first.user
          (λ (t : OnceToken). t.token_hash ≡ hash → t.id ≡ id) unique first.found in
      let used_id : first.used.id ≡ id =
        unique_used ((valid_hash now first.hash first.used valid).0 ∙ hash_is) in
      let spent_after : IsSpent hash after.resets = subst (IsSpent hash) (sym first.spent) (
        marked-IsSpent hash now first.used.id before.resets (
          subst (λ (n : ℕ). All (λ (t : OnceToken). t.token_hash ≡ hash → t.id ≡ n) before.resets)
            (sym used_id) unique)) in
      let spent_later =
        run-Q c config (λ f. Unit {0}) (λ (f : FreshToken). c.sha256 f.reset_bytes ≢ hash)
          (λ db. IsSpent hash db.resets) (IsSpent-IsClosed hash) calls after fresh spent_after in
      let (spent_used, valid1) =
        found-hash later second.hash (run c config calls after).users
          (run c config calls after).resets second.used second.user
          (λ (t : OnceToken). t.token_hash ≡ hash → is_null t.used_at ≡ false) spent_later
          second.found in
      let (hashed, unused) = valid_hash later second.hash second.used valid1 in
      let used = spent_used (hashed ∙ hash1_is) in cc
