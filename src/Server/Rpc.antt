-- ===== src/Server/Rpc.antt =====
-- The errors of the gRPC handlers, and the handlers as actions on the lease store.
use kms_client.Prelude.{String, Bool, true, false}
use kms_client.Store.State.{LeaseStore}

-- The codes of google.golang.org/grpc/codes that the program names; `other_code` is any other,
-- with the text of its String method in lower case.
pub data Code : Type 0 where
  ok permission_denied unauthenticated failed_precondition invalid_argument internal : Code
  other_code : String → Code

-- An error with a status, or one that has none. A message is its format's text up to the first
-- verb: what follows is the text of a library's error.
pub data RpcError : Type 0 where
  status : Code → String → RpcError
  plain : String → RpcError

pub data Result {ℓ} (A : Type ℓ) : Type ℓ where
  success : A → Result A
  failure : RpcError → Result A

-- What a handler wrote before an error stays written.
abbrev pub Rpc : Type 0 → Type 0
Rpc A = LeaseStore → LeaseStore × Result A

module _ {A : Type 0} where
  abbrev pub pure : A → Rpc A
  pure a s = (s, success a)

  abbrev pub raise : RpcError → Rpc A
  raise e s = (s, failure e)

abbrev continue : {A B : Type 0} → LeaseStore → Result A → (A → Rpc B) → LeaseStore × Result B
continue s (success a) f = f a s
continue s (failure e) f = (s, failure e)

infixl 5 ◌>>=◌ ◌>>◌
abbrev pub ◌>>=◌ : {A B : Type 0} → Rpc A → (A → Rpc B) → Rpc B
◌>>=◌ m f s = let (s', r) = m s in continue s' r f

abbrev pub ◌>>◌ : {B : Type 0} → Rpc (Unit {0}) → Rpc B → Rpc B
m >> k = m >>= λ _. k

-- `if !test { return nil, e }`
abbrev pub require : Bool → RpcError → Rpc (Unit {0})
require true e = pure tt
require false e = raise e
