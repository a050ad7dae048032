-- ===== src/FulaSec.antt =====
-- libraries/fula-sec/src: asym.enc.ts (`AsymEncryption`), tagged.enc.ts (`TaggedEncryption`) and did.ts
-- (`FulaDID`). The cryptography of did-jwt, of dids and of js-sha3 is an interface.
use fula_archived.Prelude.{Option, List, Text, Bytes, Result, ok, ◌>>=◌, call}

-- `{symetricKey, CID}`
pub record Secret : Type 0 where
  pub symetric_key : Text
  pub cid : Text

-- Decryption gives a view of an array buffer, and the whole buffer.
pub record Decrypted : Type 0 where
  pub view : Bytes
  pub buffer : Bytes

-- `public_key` is `generateKeyPairFromSeed(...).publicKey`, on the hex text of a private key.
pub record Crypto : Type 1 where
  pub Jwe : Type 0
  pub public_key : Text → Bytes
  pub create_jwe : Bytes → List Bytes → Option Jwe
  pub decrypt_jwe : Jwe → Text → Option Decrypted
  pub secret_json : Secret → Bytes
  pub parse_secret : Bytes → Option Secret

-- `_did.createDagJWE(cleartext, didAudience)` and `_did.decryptDagJWE(jwe)` of dids, for `TaggedEncryption`.
pub record Did : Type 1 where
  pub Jwe : Type 0
  pub create_dag_jwe : Secret → List Text → Option Jwe
  pub decrypt_dag_jwe : Jwe → Option Secret

unfoldable pub tagged_encrypt : (d : Did) → Text → Text → List Text → Result d.Jwe
tagged_encrypt d symetric_key cid audience =
    call (d.create_dag_jwe (record { symetric_key = symetric_key; cid = cid }) audience)

unfoldable pub tagged_decrypt : (d : Did) → d.Jwe → Result Secret
tagged_decrypt d j = call (d.decrypt_dag_jwe j)

-- What `FulaDID` uses: `keccak256` of JSON in hex, and a `DID` with a provider made of a seed, that
-- authenticates.
pub record Identities : Type 1 where
  pub keccak256 : Text → Text
  pub json : Text → Text → Text
  pub authenticate : Text → Option Text

pub record FulaDid : Type 0 where
  pub root_key : Text
  pub auth_did : Text

-- `create(_secretKey, signature)`, with the private `didProvider`.
unfoldable pub create : Identities → Text → Text → Result FulaDid
create i secret_key signature = do
  let root_key = i.keccak256 (i.json secret_key signature)
  auth_did ← call (i.authenticate root_key)
  ok (record { root_key = root_key; auth_did = auth_did })

module _ (c : Crypto) where
  -- The constructor: the public key that the user shares, and the private key.
  pub record AsymEncryption : Type 0 where
    pub public_key : Bytes
    pub private_key : Text

  unfoldable pub new_asym_encryption : Text → AsymEncryption
  new_asym_encryption k = record { public_key = c.public_key k; private_key = k }

  -- `encrypt(symetricKey, CID, publicKey)`; the object's own keys are not used.
  unfoldable pub encrypt : AsymEncryption → Text → Text → List Bytes → Result c.Jwe
  encrypt a symetric_key cid keys =
      call (c.create_jwe (c.secret_json (record { symetric_key = symetric_key; cid = cid })) keys)

  -- `decrypt(jwe)`, which parses the whole buffer under the array that was decrypted.
  unfoldable pub decrypt : AsymEncryption → c.Jwe → Result Secret
  decrypt a j = do d ← call (c.decrypt_jwe j a.private_key); call (c.parse_secret d.buffer)
