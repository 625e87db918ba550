-- ===== src/Http/Routes.antt =====
-- The routes of httpapi/handler.go, on a clean path that is split at its slashes.
use stream_pulse.Common.{
  String, Bool, true, false, Option, none, some, List, [], ◌∷◌, str_eq, if◌then◌else◌,
}

pub data Method : Type 0 where
  get head post other : Method

pub data Segment : Type 0 where
  lit : String → Segment
  wild : Segment

-- The handlers that `New` registers.
pub data Endpoint : Type 0 where
  health ready metrics latest evaluate acknowledge outcome : Endpoint

pub record Route : Type 0 where
  pub method : Method
  pub pattern : List Segment
  pub endpoint : Endpoint

-- A pattern without a method never occurs. One for `GET` is one for `HEAD` as well.
abbrev pub allows : Method → Method → Bool
allows get get = true
allows get head = true
allows post post = true
allows _ _ = false

-- What the wildcards of a pattern stand for in a path.
abbrev pub match : List Segment → List String → Option (List String)
match [] [] = some []
match [] (part ∷ parts) = none
match (segment ∷ more) [] = none
match (lit text ∷ more) (part ∷ parts) = if str_eq text part then match more parts else none
match (wild ∷ more) (part ∷ parts) = elim (match more parts) [
  | none ↦ none
  | some values ↦ some (part ∷ values)
]

abbrev pub scoped : List Segment → List Segment
scoped rest = lit "v1" ∷ lit "scopes" ∷ wild ∷ wild ∷ rest

abbrev pub recommended : List Segment → List Segment
recommended rest = lit "v1" ∷ lit "recommendations" ∷ rest

abbrev pub routes : List Route
routes =
    record { method = get; pattern = lit "healthz" ∷ []; endpoint = health }
    ∷ record { method = get; pattern = lit "readyz" ∷ []; endpoint = ready }
    ∷ record { method = get; pattern = scoped (lit "metrics" ∷ []); endpoint = metrics }
    ∷ record {
      method = get;
      pattern = scoped (lit "recommendations" ∷ lit "latest" ∷ []);
      endpoint = latest;
    }
    ∷ record { method = post; pattern = recommended (lit "evaluate" ∷ []); endpoint = evaluate }
    ∷ record {
      method = post;
      pattern = recommended (wild ∷ lit "ack" ∷ []);
      endpoint = acknowledge;
    }
    ∷ record {
      method = post;
      pattern = recommended (wild ∷ lit "outcome" ∷ []);
      endpoint = outcome;
    }
    ∷ []

-- What the mux does with a request: no path fits, the path fits for another method only, or an
-- endpoint is called with the values of its wildcards.
pub data Routed : Type 0 where
  not_found method_not_allowed : Routed
  found : Endpoint → List String → Routed

-- What a route makes of a path, where the later routes answer `missed` if its pattern does not fit,
-- and `wrong_method` if only its method does not.
abbrev pub choose : Option (List String) → Bool → Endpoint → Routed → Routed → Routed
choose none allowed endpoint missed wrong_method = missed
choose (some values) true endpoint missed wrong_method = found endpoint values
choose (some values) false endpoint missed wrong_method = wrong_method

abbrev pub select : Method → List String → Bool → List Route → Routed
select method path known [] = if known then method_not_allowed else not_found
select method path known (r ∷ rs) =
    let missed = select method path known rs in
    let wrong_method = select method path true rs in
    choose (match r.pattern path) (allows r.method method) r.endpoint missed wrong_method

unfoldable pub route : Method → List String → Routed
route method path = select method path false routes
