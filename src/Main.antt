-- ===== src/Main.antt =====
-- src/main.cpp: the command, from its arguments to its end.
use protei_cov.Prelude.{
  ℕ, ◌-◌, ◌%◌, ◌^◌, ◌<◌, ◌≡◌, Option, none, some, List, [], ◌∷◌, if◌then◌else◌, Text, codes,
  text_eq, ℤ, pos, negsuc, arith, Bool, true, map, ◌++◌, refl, ap, ◌∙◌,
}
use protei_cov.Effects.{Exception, Outcome, ok, throws, fault}
use protei_cov.Json.{PropertyTree}
use protei_cov.World.{World}
use protei_cov.Config.Range.{IsNormal}
use protei_cov.Manager.{Manager, start_thread_pool}
use protei_cov.Builder.{Site, new_builder, build_logger}
use protei_cov.Builder.Laws.{its_config, construct-Constructed}
use protei_cov.Http.Server.{new_server, run}
use protei_cov.Stdlib.Decimal.{show_nat}
use protei_cov.Stdlib.Stoll.{stoi, stoi-show_nat}

-- `int` to `short unsigned`
abbrev pub to_port : ℤ → ℕ
to_port (pos n) = n % 2 ^ 16
to_port (negsuc n) = 2 ^ 16 - 1 - n % 2 ^ 16

-- What `main` does with the arguments behind the program's name: nothing but a message, or a server
-- on a port with a config's path. An exception of `stoi` ends the program.
unfoldable pub arguments : List Text → Outcome (Option (ℕ × Text))
arguments (word ∷ []) =
    if text_eq word (codes "test") then ok none else ok (some (8080, codes "base.json"))
arguments (port ∷ path ∷ []) = elim (stoi port) [
  | ok n ↦ ok (some (to_port n, path))
  | throws e ↦ throws e
  | fault ↦ fault
]
arguments _ = ok (some (8080, codes "base.json"))

-- How the command ends: a test run; by an exception, undefined behaviour in the constructor of the
-- server; or a server on a port, with the connections that it gave a thread each, and whether its loop
-- has ended.
pub data Ending : Type 0 where
  tested undefined : Ending
  terminated : Exception → Ending
  served : (port : ℕ) (sockets : List ℕ) (ended : Bool) → Ending

-- What the command meets: the ports that open, the files, what its calls record, the text of
-- `cdrFile.txt`, and what `accept` comes to, time after time. The path in `site` is the argument's.
pub record Surroundings : Type 0 where
  pub opens : ℕ → Bool
  pub site : Site
  pub world : World
  pub cdr_file : Text
  pub accepts : List (Option ℕ)

abbrev at_path : Text → Surroundings → Site
at_path path around = record (around.site) { path = path }

module _ {P : Type 0} (boost : PropertyTree P) (around : Surroundings) where
  run_server : ℕ → Outcome Manager → Ending
  run_server port (ok m) = let (sockets, ended) = run around.accepts in served port sockets ended
  run_server port (throws e) = terminated e
  run_server port fault = undefined

  follow : Outcome (Option (ℕ × Text)) → Ending
  unfolding run_server
  follow (throws e) = terminated e
  follow fault = undefined
  follow (ok none) = tested
  follow (ok (some (port, path))) =
      run_server port
        (new_server boost (around.opens port) (at_path path around) around.world
          (new_builder around.cdr_file)).0

  unfoldable pub main : List Text → Ending
  unfolding follow
  main args = follow (arguments args)

-- A port below 2^31 in decimal digits is read back modulo 2^16, so a port above 65535 is another
-- one, and every port of 16 bits is itself.
arguments-show_nat :
    (port : ℕ) (path : Text)
    → port < 2 ^ 31
    → arguments (show_nat port ∷ path ∷ []) ≡ ok (some (port % 2 ^ 16, path))
unfolding arguments
arguments-show_nat port path h = ground (arith, stoi-show_nat port h)

-- The loop gives every connection before the first error of `accept` a thread, and ends there.
run-error :
    (sockets : List ℕ) (later : List (Option ℕ))
    → run (map some sockets ++ (none ∷ later)) ≡ (sockets, true)
unfolding run
run-error [] later = refl
run-error (s ∷ ss) later = rw (run, run-error ss later) refl

-- The command with a port below 2^31 in decimal digits and a config's path, where the log file and
-- the port modulo 2^16 open and the settings in the file are normal, is a server on the port modulo
-- 2^16: another one than was asked for where that is above 65535. Its loop gives every connection
-- before the first error of `accept` a thread of its own, and ends there.
pub main-show_nat :
    {P : Type 0} (boost : PropertyTree P) (around : Surroundings) (port : ℕ) (path : Text)
    (sockets : List ℕ) (later : List (Option ℕ))
    → port < 2 ^ 31
    → around.opens (port % 2 ^ 16) ≡ true
    → around.site.log_opens ≡ true
    → IsNormal (its_config boost (at_path path around) around.world around.cdr_file).settings
    → around.accepts ≡ map some sockets ++ (none ∷ later)
    → main boost around (show_nat port ∷ path ∷ []) ≡ served (port % 2 ^ 16) sockets true
unfolding main new_server build_logger start_thread_pool
main-show_nat boost around port path sockets later small opens logs n accepts =
    let c = construct-Constructed boost (at_path path around) around.world around.cdr_file logs n in
    ap (follow boost around) (arguments-show_nat port path small)
    ∙ rw (opens, c.returns, logs, accepts, run-error sockets later) refl
