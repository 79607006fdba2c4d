-- ===== src/Client/World.antt =====
-- The world of a call: the requests sent so far, the waits made and the diagnostics shown. The
-- server, the network, the clock and the random source are an environment that answers from the
-- whole history of requests, so it can keep any state of its own.
use terraform_provider_uapi.Base.{ℕ, ℤ, String, Option, List, [], ◌∷◌, ◌++◌, Bool}
use terraform_provider_uapi.Framework.{Diagnostic, error, warning, has_error}
use terraform_provider_uapi.Client.Error.{Ended}

pub data Method : Type 0 where
  get post put patch delete : Method

pub record Request : Type 0 where
  pub method : Method
  pub target : String
  pub headers : List (String × String)
  pub body : Option String

-- A response as the code reads it; a header that is absent reads "".
pub record Response : Type 0 where
  pub status : ℕ
  pub retry_after : String
  pub etag : String
  pub next_cursor : String
  pub mgmt_path_warning : String
  pub body : String

-- An error of the transport; `ended` if errors.Is finds a context error in it.
pub record Failure : Type 0 where
  pub text : String
  pub ended : Option Ended

pub data Outcome : Type 0 where
  -- c.http.Do failed
  no_answer : Failure → Outcome
  -- io.ReadAll of the body failed, behind this status
  no_body : ℕ → Failure → Outcome
  answered : Response → Outcome

-- What one attempt meets: its outcome, the two readings of the clock behind it (nanoseconds), the
-- jitter that Int63n draws, and whether the context ends during the wait.
pub record Attempt : Type 0 where
  pub outcome : Outcome
  pub now : ℕ
  pub later : ℕ
  pub jitter : ℕ
  pub ended : Option Ended

pub record Env : Type 0 where
  -- from the requests sent, the last one first
  pub respond : List Request → Attempt
  -- rand.Read of sixteen bytes
  pub random : List Request → Option (List ℕ)

pub record World : Type 0 where
  pub sent : List Request
  pub waits : List ℤ
  pub diags : List Diagnostic

abbrev pub start : World
start = record { sent = []; waits = []; diags = [] }

abbrev pub Action {ℓ} : Type ℓ → Type ℓ
Action A = Env → World → A × World

module _ {ℓ} {A : Type ℓ} where
  abbrev pub pure : A → Action A
  pure a env w = (a, w)

module _ {ℓ κ} {A : Type ℓ} {B : Type κ} where
  infixl 5 ◌>>=◌
  abbrev pub ◌>>=◌ : Action A → (A → Action B) → Action B
  ◌>>=◌ m f env w = let (a, w') = m env w in f a env w'

module _ {ℓ} {B : Type ℓ} where
  infixl 5 ◌>>◌
  abbrev pub ◌>>◌ : Action (Unit {0}) → Action B → Action B
  ◌>>◌ m k env w = let (_, w') = m env w in k env w'

-- resp.Diagnostics.Append
abbrev pub append : List Diagnostic → Action (Unit {0})
append ds env w = (tt, record w { diags = w.diags ++ ds })

abbrev pub add_error : String → String → Action (Unit {0})
add_error summary detail = append (error summary detail ∷ [])

abbrev pub add_warning : String → String → Action (Unit {0})
add_warning summary detail = append (warning summary detail ∷ [])

-- resp.Diagnostics.HasError
abbrev pub has_errors : Action Bool
has_errors env w = (has_error w.diags, w)
