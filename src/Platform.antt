-- ===== src/Platform.antt =====
-- What the modelled code takes from Python's standard library and from numpy: IEEE floats and their
-- operations, `uuid.uuid5`, `str` of a UUID, `datetime.isoformat` and SHA-256 digests. None of it is in the
-- repository, so it is a parameter of the model.
use industrial_reliability_p.Base.{ℕ, Bool, String, List}

-- A UUID is its 128-bit value; the code only compares, prints and stores it.
abbrev pub Uuid : Type 0
Uuid = ℕ

-- A datetime: microseconds from `datetime.min`, and whether `tzinfo` is set (then it is UTC).
pub record Datetime : Type 0 where
  pub tick : ℕ
  pub aware : Bool

pub record Platform : Type 1 where
  pub Float : Type 0
  pub is_finite : Float → Bool
  -- `x >= 0.0`
  pub is_nonneg : Float → Bool
  pub sub : Float → Float → Float
  pub abs : Float → Float
  pub add : Float → Float → Float
  pub neg : Float → Float
  pub mul : Float → Float → Float
  pub div : Float → Float → Float
  pub max : Float → Float → Float
  -- `x < y` and `x <= y`
  pub lt : Float → Float → Bool
  pub le : Float → Float → Bool
  pub infinity : Float
  -- the float nearest to the literal m / 10 ^ e, and the float of an integer
  pub decimal : ℕ → ℕ → Float
  pub of_nat : ℕ → Float
  -- `(later - earlier).total_seconds()`
  pub seconds_between : Datetime → Datetime → Float
  pub uuid5 : Uuid → String → Uuid
  pub namespace_url : Uuid
  -- RUNTIME_NAMESPACE, the UUID that runtime_ids.py writes out as text
  pub runtime_namespace : Uuid
  pub uuid_str : Uuid → String
  pub int_str : ℕ → String
  -- the `str` of a list of floats, and of a list of integers
  pub floats_str : List Float → String
  pub ints_str : List ℕ → String
  -- numpy's mean, population standard deviation, minimum and maximum of a series
  pub np_mean : List Float → Float
  pub np_std : List Float → Float
  pub np_min : List Float → Float
  pub np_max : List Float → Float
  pub isoformat : Datetime → String
  -- `hashlib.sha256(text.encode("utf-8")).hexdigest()`
  pub sha256 : String → String
