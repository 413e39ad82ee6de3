-- ===== src/App.antt =====
-- What a connection asks of the key-value store: lib/server/conn.cpp calls `do_request` of
-- lib/server/response.cpp and knows nothing else of the store. Nothing is assumed of the call: the
-- handlers of connections are studied over any such function, and over `store_app`, the commands of the
-- key-value store.
use greenis.Prelude.{ℕ, Bool, List, Option, Run}
use greenis.Prelude.Int.{ℤ}
use greenis.Bytes.{Bytes}
use greenis.Buffer.{Buffer}
use greenis.KeyValue.{Store, do_request}
use greenis.KeyValue.SetCommands.{sorted_sets, zcommands}
use greenis.Zset.{ZSet}

pub record App : Type 1 where
  pub State : Type 0
  pub do_request : State → List Bytes → Buffer → Run (State × Buffer)

-- The program's commands, while the clock shows `now_ms`.
abbrev pub store_app :
    (ℕ → ℕ → Bool) → (ℕ → ℕ → Bool) → (Bytes → Option ℕ) → (Bytes → Option ℤ) → ℕ → App
store_app ne lt str2dbl str2int now_ms = record {
  State = Store ZSet;
  do_request = λ st cmd out.
      do_request sorted_sets (zcommands ne lt str2dbl str2int) str2int now_ms cmd st out;
}
