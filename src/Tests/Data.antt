-- ===== src/Tests/Data.antt =====
-- Test data that several test files share.
use zicade_rs.Prelude.{false, arith, ℕ, ◌+◌, ◌-◌, ◌≡◌, ◌≢◌, refl, ap, some, [], ◌∷◌, ok, All}
use zicade_rs.Text.{Str, is_whitespace}
use zicade_rs.Auth.Handshake.{StepFn, Bytes}
use zicade_rs.Auth.Header.{Base64, IsBase64}

-- An authenticator that counts its calls and answers with the count.
abbrev pub counting_step : StepFn ℕ
counting_step n challenge = (n + 1, ok (n ∷ []))

-- An encoding that shifts each byte to a character beyond the last white space.
abbrev pub shift_encode : Bytes → Str
shift_encode [] = []
shift_encode (x ∷ bs) = (x + 12289) ∷ shift_encode bs

abbrev pub shift_decode : Str → Bytes
shift_decode [] = []
shift_decode (c ∷ s) = (c - 12289) ∷ shift_decode s

abbrev pub shifting : Base64
shifting = record { encode = shift_encode; decode = λ s. some (shift_decode s) }

shift_decode-encode : (bs : Bytes) → shift_decode (shift_encode bs) ≡ bs
shift_decode-encode [] = refl
shift_decode-encode (x ∷ bs) = ground (arith, shift_decode-encode bs)

shift_encode_graphic : (bs : Bytes) → All (λ c. is_whitespace c ≡ false) (shift_encode bs)
unfolding is_whitespace
shift_encode_graphic [] = tt
shift_encode_graphic (x ∷ bs) = (ground arith, shift_encode_graphic bs)

shift_encode-ne-nil : (bs : Bytes) → bs ≢ [] → shift_encode bs ≢ []
shift_encode-ne-nil [] ne = ne
shift_encode-ne-nil (x ∷ bs) ne = λ e. cc

pub shifting-IsBase64 : IsBase64 shifting
shifting-IsBase64 = record {
  decode-encode = λ bs _. ap some (shift_decode-encode bs);
  encode_graphic = shift_encode_graphic;
  encode-ne-nil = shift_encode-ne-nil;
}

-- The bytes of a text, for ASCII.
abbrev pub ascii : Bytes → Str
ascii bs = bs
