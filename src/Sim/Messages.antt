-- ===== src/Sim/Messages.antt =====
-- The responses that src/sim.rs builds, from the parts of a message that it reads and sets.
use blastdns.Prelude.{ℕ, zero, suc, ◌+◌, ◌%◌, Bool, true, false, List, [], ◌∷◌, if◌then◌else◌}

-- What `build_response_sized` uses of hickory.
pub record Wire : Type 1 where
  pub Name : Type 0
  pub Query : Type 0
  pub OpCode : Type 0
  pub query_name : Query → Name
  -- `query_type() == RecordType::A`
  pub is_a : Query → Bool

module _ (wire : Wire) where
  open wire use {Name, Query, OpCode}

  pub record Message : Type 0 where
    pub id : ℕ
    pub op_code : OpCode
    pub recursion_desired : Bool
    pub queries : List Query

  -- `A::new(a, b, c, d)` of the name with a time to live
  pub record Record : Type 0 where
    pub name : Name
    pub ttl : ℕ
    pub octets : ℕ × ℕ × ℕ × ℕ

  pub record Response : Type 0 where
    pub id : ℕ
    pub op_code : OpCode
    pub recursion_desired : Bool
    pub recursion_available : Bool
    pub queries : List Query
    pub refused : Bool
    pub answers : List Record
    pub truncated : Bool

  -- The records `i .. i + n`
  abbrev pub zone : Name → ℕ → ℕ → List Record
  zone name i zero = []
  zone name i (suc n) =
      record { name = name; ttl = 60; octets = (127, 0, 0, (i + 1) % 256) } ∷ zone name (i + 1) n

  abbrev pub answers_for : List Query → ℕ → List Record
  answers_for [] n = []
  answers_for (q ∷ qs) n = if wire.is_a q then zone (wire.query_name q) 0 n else []

  -- A new message has no code but NOERROR, no answers and no flag set.
  unfoldable pub build_response_sized : Message → Bool → ℕ → Bool → Response
  build_response_sized request refuse answer_count truncated = record {
    id = request.id;
    op_code = request.op_code;
    recursion_desired = request.recursion_desired;
    recursion_available = true;
    queries = request.queries;
    refused = refuse;
    answers = if refuse then [] else answers_for request.queries answer_count;
    truncated = if refuse then false else truncated;
  }

  abbrev pub truncated_answer_count : ℕ
  truncated_answer_count = 2

  abbrev pub full_answer_count : ℕ
  full_answer_count = 8

  unfoldable pub build_response : Message → Bool → Response
  unfolding build_response_sized
  build_response request refuse = build_response_sized request refuse full_answer_count false

  -- What the UDP task sends.
  unfoldable pub udp_response : Bool → Message → Bool → Response
  unfolding build_response build_response_sized
  udp_response truncate_udp request refuse =
      if truncate_udp
      then build_response_sized request refuse truncated_answer_count true
      else build_response request refuse
