-- ===== src/Tests/Secrets.antt =====
-- gorouter/internal/crypto/crypto.go: a run with bytes written one for one and a cipher that hides nothing.
use mathlib.Core.Option
use Prim.Native.Char.{code}
use yi_api_proxy.Base.{
  ℕ, zero, suc, ◌+◌, ◌≡◌, refl, sym, ap, ◌∙◌, String, List, [], ◌∷◌, Option, some, ◌⊎◌, inl, inr,
  if◌then◌else◌, ◌==◌, length, arith,
}
use yi_api_proxy.Crypto.{Base64, Aead, encrypt, decrypt, decrypt-encrypt}

-- One character of the first text, before the second.
abbrev before : String → String → String
before String.[] s = s
before (String.◌∷◌ c t) s = String.◌∷◌ c s

-- A number in strokes, and a full stop.
abbrev strokes : ℕ → String → String
strokes zero s = before "." s
strokes (suc n) s = before "1" (strokes n s)

abbrev written : List ℕ → String
written [] = ""
written (n ∷ ns) = strokes n (written ns)

abbrev read_from : ℕ → String → Option (List ℕ)
read_from n String.[] = some []
read_from n (String.◌∷◌ c s) =
    let more = read_from (suc n) s in
    let rest = read_from 0 s in if code c == 49 then more else Option.map (λ ns. n ∷ ns) rest

read_strokes :
    (k n : ℕ) (s : String)
    → read_from k (strokes n s) ≡ Option.map (λ ns. (k + n) ∷ ns) (read_from 0 s)
read_strokes k zero s = rw (plus_zero k) refl
  where
    plus_zero : (m : ℕ) → m + 0 ≡ m
    plus_zero m = omega arith
read_strokes k (suc n) s = read_strokes (suc k) n s ∙ rw (plus_suc k n) refl
  where
    plus_suc : (m l : ℕ) → m + suc l ≡ suc m + l
    plus_suc m l = omega arith

read_written : (ns : List ℕ) → read_from 0 (written ns) ≡ some ns
read_written [] = refl
read_written (n ∷ ns) = read_strokes 0 n (written ns) ∙ rw (read_written ns, zero_plus n) refl
  where
    zero_plus : (m : ℕ) → 0 + m ≡ m
    zero_plus m = omega arith

base64 : Base64
base64 = record { encode = written; decode = read_from 0; decode-encode = read_written }

aead : Aead
aead = record {
  nonce_size = 2;
  seal = λ nonce plaintext. plaintext;
  unseal = λ nonce ciphertext. some ciphertext;
  unseal-seal = λ nonce plaintext h. refl;
}

abbrev ones : ℕ → List ℕ
ones zero = []
ones (suc n) = 1 ∷ ones n

abbrev random : ℕ → String ⊎ List ℕ
random n = inr (ones n)

abbrev bytes_or : String ⊎ List ℕ → List ℕ
bytes_or (inl e) = []
bytes_or (inr b) = b

length-ones : (m : ℕ) → length (ones m) ≡ m
length-ones zero = refl
length-ones (suc m) = ap suc (length-ones m)

random_fills : (n : ℕ) (bytes : List ℕ) → random n ≡ inr bytes → length bytes ≡ n
random_fills n bytes h = ap (λ r. length (bytes_or r)) (sym h) ∙ length-ones n

decrypt-encrypt_example :
    decrypt base64 (λ key. some aead) (written (1 ∷ 1 ∷ 7 ∷ [])) (some (ones 32)) ≡ inr (7 ∷ [])
unfolding encrypt base64 aead
decrypt-encrypt_example =
    decrypt-encrypt base64 (λ key. some aead) random (7 ∷ []) (written (1 ∷ 1 ∷ 7 ∷ []))
      random_fills (some (ones 32)) refl
