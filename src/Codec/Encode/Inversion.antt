-- ===== src/Codec/Encode/Inversion.antt =====
-- What a successful step of an encoder says of its argument and its result.
use rpc_framework.Prelude.{◌≤◌, ◌≡◌, refl, ◌++◌, Option, none, some, arith, length}
use rpc_framework.Network.Buffer.{Bytes}
use rpc_framework.Codec.Words.{encode_u16}
use rpc_framework.Codec.Encode.{◌>>=◌, append_string}

pub >>=-eq-some {ℓ κ} :
    {A : Type ℓ} {B : Type κ} (m : Option A) (f : A → Option B) {b : B}
    → (m >>= f) ≡ some b
    → (a : A) × (m ≡ some a) × (f a ≡ some b)
>>=-eq-some (some a) f h = (a, refl, h)
>>=-eq-some none f h = cc

pub append_string-eq-some :
    (out str : Bytes) {o : Bytes}
    → append_string out str ≡ some o
    → (length str ≤ 65535) × (o ≡ out ++ (encode_u16 (length str) ++ str))
unfolding append_string
append_string-eq-some out str h = ground arith
