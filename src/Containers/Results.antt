-- ===== src/Containers/Results.antt =====
-- src/VecSim/containers/vecsim_results_container.h: where a range query collects its results.
pub mod Lowest
mod Tests
use vector_similarity.Base.{ℕ, List, [], ◌∷◌, ◌++◌, map, some, none, length, ltb, if◌then◌else◌}
use vector_similarity.Base.Dict
use vector_similarity.Base.Dict.{Dict}
use vector_similarity.Query.{QueryResult}

-- abstract_results_container
pub record ResultsContainer (C : Type 0) : Type 0 where
  pub new_container : C
  pub emplace : ℕ → ℕ → C → C
  pub size : C → ℕ
  pub get_results : C → List QueryResult

-- unique_results_container: the lowest score of each id
unfoldable pub emplace_unique : ℕ → ℕ → Dict ℕ → Dict ℕ
emplace_unique id score d = elim (Dict.find id d) [
  | none ↦ Dict.emplace id score d
  | some old ↦ if ltb score old then Dict.insert id score d else d
]

abbrev pub unique_results_container : ResultsContainer (Dict ℕ)
unique_results_container = record {
  new_container = [];
  emplace = emplace_unique;
  size = length;
  get_results = map (λ e. record { id = e.0; score = e.1 });
}

-- default_results_container: every result, in the order of insertion
abbrev pub default_results_container : ResultsContainer (List QueryResult)
default_results_container = record {
  new_container = [];
  emplace = λ id score out. out ++ record { id = id; score = score } ∷ [];
  size = length;
  get_results = λ out. out;
}
