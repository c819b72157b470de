-- ===== src/Registry/Register.antt =====
-- internal/agentreg/agentreg.go: what the registry keeps of an agent, and `Register`.
use gapi.Prelude.{ℕ, String, Bool, ◌||◌, List, [], ◌∷◌, Option, none, some, if◌then◌else◌}
use gapi.Prelude.Int.{pos}
use gapi.Prelude.Text.{is_blank}
use gapi.Store.Graph.{Node, Edge}
use gapi.Store.Interface.{HybridStore}
use Prim.Native.String.{◌++◌ as str_append}

pub record AgentDescription : Type 0 where
  pub id : String
  pub path : String
  pub type : String
  pub language : String
  pub version : String
  pub hash : String
  pub capabilities : List String
  pub requires : List String
  pub wants : List String
  pub required_by : List String
  pub wanted_by : List String
  pub tags : List String

-- Where a registration stops.
pub data Failure : Type 0 where
  invalid_agent missing_signature invalid_hex no_hash bad_signature : Failure
  no_record no_node no_requires no_wants no_wanted_by no_required_by : Failure

-- The reader of files, `hex.DecodeString`, `crypto.HashFile` and `crypto.Verify`.
pub record Files (Key : Type 0) : Type 0 where
  pub read_file : String → Option String
  pub decode_hex : String → Option (List ℕ)
  pub hash_file : String → Option String
  pub verify : Key → String → List ℕ → Bool

abbrev pub agents_bucket : String
agents_bucket = "agents"

abbrev pub edge_kind_requires : String
edge_kind_requires = "requires"

abbrev pub edge_kind_wants : String
edge_kind_wants = "wants"

abbrev pub edge_to : String → String → String → Edge
edge_to from kind to = record { from = from; to = to; kind = kind; weight = pos 0 }

module _ {Key : Type 0} (files : Files Key) where
  abbrev pub check_hash : Key → List ℕ → Option String → Option Failure
  check_hash key sig none = some no_hash
  check_hash key sig (some hash) = if files.verify key hash sig then none else some bad_signature

  abbrev pub check_decoded : Key → String → Option (List ℕ) → Option Failure
  check_decoded key path none = some invalid_hex
  check_decoded key path (some sig) = check_hash key sig (files.hash_file path)

  abbrev pub check_file : Key → String → Option String → Option Failure
  check_file key path none = some missing_signature
  check_file key path (some hex) = check_decoded key path (files.decode_hex hex)

  -- The integrity check; without a key there is none.
  unfoldable pub check_integrity : Option Key → AgentDescription → Option Failure
  check_integrity none agent = none
  check_integrity (some key) agent =
      check_file key agent.path (files.read_file (str_append agent.path ".sig"))

module _ (st : HybridStore AgentDescription) where
  -- What was written stays written after an error.
  abbrev pub Written : Type 0
  Written = st.State × Option Failure

  abbrev pub attempt : st.State → Failure → Option st.State → (st.State → Written) → Written
  attempt s f none k = (s, some f)
  attempt s f (some t) k = k t

  abbrev pub and_then : Written → (st.State → Written) → Written
  and_then (s, none) k = k s
  and_then (s, some f) k = (s, some f)

  -- One of the four loops over the declared names.
  unfoldable pub write_edges : (String → Edge) → Failure → List String → st.State → Written
  write_edges edge f [] s = (s, none)
  write_edges edge f (dep ∷ deps) s =
      attempt s f (st.add_edge (edge dep) s) (λ t. write_edges edge f deps t)

  unfoldable pub write_all_edges : AgentDescription → st.State → Written
  unfolding write_edges
  write_all_edges agent s =
      and_then (write_edges (edge_to agent.id edge_kind_requires) no_requires agent.requires s) λ t.
        and_then (write_edges (edge_to agent.id edge_kind_wants) no_wants agent.wants t) λ u.
          and_then
            (write_edges (λ target. edge_to target edge_kind_wants agent.id) no_wanted_by
              agent.wanted_by u)
            λ v.
              write_edges (λ target. edge_to target edge_kind_requires agent.id) no_required_by
                agent.required_by v

  abbrev pub node_of : AgentDescription → Node
  node_of agent = record { id = agent.id; type = agent.type; labels = [] }

  -- The writes of a registration.
  unfoldable pub write_agent : AgentDescription → st.State → Written
  unfolding write_all_edges
  write_agent agent s =
      attempt s no_record (st.set agents_bucket agent.id agent s)
        λ t. attempt t no_node (st.add_node (node_of agent) t) λ u. write_all_edges agent u

  abbrev pub write_checked : AgentDescription → Option Failure → st.State → Written
  write_checked agent (some f) s = (s, some f)
  write_checked agent none s = write_agent agent s

  -- `Register`; a nil agent is `none`.
  unfoldable pub register :
      {Key : Type 0} → Files Key → Option Key → Option AgentDescription → st.State → Written
  unfolding check_integrity write_agent
  register files key none s = (s, some invalid_agent)
  register files key (some agent) s =
      if is_blank agent.id || is_blank agent.type
      then (s, some invalid_agent)
      else write_checked agent (check_integrity files key agent) s
