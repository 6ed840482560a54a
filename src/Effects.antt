-- ===== src/Effects.antt =====
-- Handlers that talk to the server and the operator, and process.go's results of commands. A handler
-- extends the log of what it did; what the outside answers may depend on the whole log.
pub mod Order
pub mod Rules
use proxy_node_assistant.Prelude.{
  Bool, List, Result, [], err, false, not, ok, ◌&&◌, ◌++◌, ◌==◌, ◌∷◌,
}
use proxy_node_assistant.Text.{Text, negsuc, pos, ℤ}

-- `ProcessResult`; `failed` is `Err != nil`.
pub record ProcessResult : Type 0 where
  pub stdout : Text
  pub stderr : Text
  pub exit_code : ℤ
  pub failed : Bool

abbrev pub is_zero : ℤ → Bool
is_zero (pos n) = n == 0
is_zero (negsuc n) = false

-- `ProcessResult.OK`
unfoldable pub succeeded : ProcessResult → Bool
succeeded r = not r.failed && is_zero r.exit_code

-- A handler over events of a type: from the log so far to its result and the longer log.
abbrev pub Exec : Type 0 → Type 0 → Type 0 → Type 0
Exec Event E A = List Event → Result E A × List Event

module _ {Event E A : Type 0} where
  unfoldable pub pure : A → Exec Event E A
  pure a log = (ok a, log)

  unfoldable pub raise : E → Exec Event E A
  raise e log = (err e, log)

  unfoldable pub lift : Result E A → Exec Event E A
  lift r log = (r, log)

  -- Do `event`; the answer is read off the log that it ends.
  unfoldable pub perform : Event → (List Event → A) → Exec Event E A
  perform event answer log = let log' = log ++ event ∷ [] in (ok (answer log'), log')

module _ {Event E A B : Type 0} where
  abbrev pub continue : Result E A → (A → Exec Event E B) → Exec Event E B
  continue (ok a) f log = f a log
  continue (err e) f log = (err e, log)

  infixl 5 ◌>>=◌ ◌>>◌
  unfoldable pub ◌>>=◌ : Exec Event E A → (A → Exec Event E B) → Exec Event E B
  ◌>>=◌ m f log = continue (m log).0 f (m log).1

  abbrev pub ◌>>◌ : Exec Event E A → Exec Event E B → Exec Event E B
  m >> k = m >>= λ _. k
