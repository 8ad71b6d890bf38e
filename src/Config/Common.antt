-- ===== src/Config/Common.antt =====
-- What both config classes build on: paths, the parser as a member, and the manager's interface.
use protei_cov.Prelude.{Bool, false, none, some, ◌||◌, [], ◌∷◌, if◌then◌else◌, Text, ◌==◌}
use protei_cov.Effects.{Exception, Outcome, ok, throws, Exec}
use protei_cov.Json.{Host}

-- `pathToFile.string().find('/') != npos`
has_slash : Text → Bool
has_slash [] = false
has_slash (c ∷ cs) = c == b'/' || has_slash cs

-- `std::filesystem::operator/` on a relative right side: one separator between the two.
join_path : Text → Text → Text
join_path [] p = p
join_path (c ∷ []) p = if c == b'/' then c ∷ p else c ∷ b'/' ∷ p
join_path (c ∷ d ∷ cs) p = c ∷ join_path (d ∷ cs) p

unfoldable pub make_normal_path : Host → Text → Outcome Text
unfolding has_slash join_path
make_normal_path host path = if has_slash path then ok path else elim host.current_path [
  | none ↦ throws Exception.filesystem_error
  | some here ↦ ok (join_path here path)
]

-- A value that was computed without the state.
abbrev pub lift : {S A : Type 0} → Outcome A → Exec S A
lift r s = (r, s)

-- `IManager`, as far as a config calls it. The state holds the config and all that `update` reaches.
pub record IManager (S : Type 0) : Type 0 where
  pub update : Exec S (Unit {0})
