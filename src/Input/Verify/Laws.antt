-- ===== src/Input/Verify/Laws.antt =====
-- What the accepted arguments have in common: each is a word that `fscanf` reads back.
use auction_simulator.Prelude.{
  ℕ, ◌≡◌, refl, Bool, true, false, ◌&&◌, ◌||◌, ◌==◌, [], ◌∷◌, All, arith, length,
}
use auction_simulator.Text.{Bytes, all, is_digit, is_alnum, is_space}
use auction_simulator.Text.Scan.{IsWord}
use auction_simulator.Input.Verify.{
  verify_uid, verify_password, verify_name, verify_asset_fname, verify_bid_args, verify_open_args,
}

and_both : (a b : Bool) → (a && b) ≡ true → (a ≡ true) × (b ≡ true)
and_both true true e = (refl, refl)
and_both true false e = cc
and_both false b e = cc

module _ (test : ℕ → Bool) (never_space : (c : ℕ) → test c ≡ true → is_space c ≡ false) where
  all-solid : (s : Bytes) → all test s ≡ true → All (λ c. is_space c ≡ false) s
  unfolding all
  all-solid [] e = tt
  all-solid (c ∷ s) e =
      let (h, hs) = and_both (test c) (all test s) e in (never_space c h, all-solid s hs)

digit-not-space : (c : ℕ) → is_digit c ≡ true → is_space c ≡ false
digit-not-space c e = ground arith

pub verify_uid-IsWord : (uid : Bytes) → verify_uid uid ≡ true → IsWord uid
unfolding verify_uid
verify_uid-IsWord uid e =
    let (long, digits) = and_both (length uid == 6) (all is_digit uid) e in
    record { filled = λ h. ground arith; solid = all-solid is_digit digit-not-space uid digits }

pub verify_bid_args-uid :
    (uid password aid value : Bytes) → verify_bid_args uid password aid value ≡ true → IsWord uid
unfolding verify_bid_args
verify_bid_args-uid uid password aid value e = verify_uid-IsWord uid (ground arith)

-- The texts that an accepted opening writes into the START file.
pub record Readable (uid name asset_fname : Bytes) : Type 0 where
  pub uid_word : IsWord uid
  pub name_word : IsWord name
  pub fname_word : IsWord asset_fname

name-not-space : (c : ℕ) → (is_alnum c || c == b'_' || c == b'-') ≡ true → is_space c ≡ false
name-not-space c e = ground arith

fname-not-space :
    (c : ℕ) → (is_alnum c || c == b'.' || c == b'_' || c == b'-') ≡ true → is_space c ≡ false
fname-not-space c e = ground arith

pub verify_name-IsWord : (name : Bytes) → verify_name name ≡ true → IsWord name
unfolding verify_name
verify_name-IsWord name e = record {
  filled = λ h. ground arith;
  solid = all-solid _ name-not-space name (and_both _ _ e).1;
}

pub verify_asset_fname-IsWord : (name : Bytes) → verify_asset_fname name ≡ true → IsWord name
unfolding verify_asset_fname
verify_asset_fname-IsWord name e = record {
  filled = λ h. ground arith;
  solid = all-solid _ fname-not-space name (and_both _ _ e).1;
}

pub verify_open_args-Readable :
    (uid password name start_value timeactive asset_fname fsize : Bytes)
    → verify_open_args uid password name start_value timeactive asset_fname fsize ≡ true
    → Readable uid name asset_fname
unfolding verify_open_args
verify_open_args-Readable uid password name start_value timeactive asset_fname fsize e = record {
  uid_word = verify_uid-IsWord uid (ground arith);
  name_word = verify_name-IsWord name (ground arith);
  fname_word = verify_asset_fname-IsWord asset_fname (ground arith);
}

alnum-not-space : (c : ℕ) → is_alnum c ≡ true → is_space c ≡ false
alnum-not-space c e = ground arith

pub verify_password-IsWord : (password : Bytes) → verify_password password ≡ true → IsWord password
unfolding verify_password
verify_password-IsWord password e =
    let (long, alnums) = and_both (length password == 8) (all is_alnum password) e in
    record {
      filled = λ h. ground arith;
      solid = all-solid is_alnum alnum-not-space password alnums;
    }
