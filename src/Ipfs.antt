-- ===== src/Ipfs.antt =====
-- The agents that pin reports: internal/ipfs_agent (agent.go, local_file_agent.go and pinata.go). Files,
-- HTTP and JSON are parameters. `log.Fatal` ends the process, as a panic that is not recovered does, and
-- is a panic of the model.
use apron_gateway_p2p.Prelude.{Option, none, some, List, [], ◌∷◌, ◌++◌, Bytes, codes}
use apron_gateway_p2p.Outcome.{Outcome, ok, err, panic, ◌>>=◌, check_error}

-- `IpfsAgent`, over the state that an agent works on: the name of what is pinned, and the new state
pub record IpfsAgent (S : Type 0) : Type 0 where
  pub pin_file : S → Bytes → Outcome (Bytes × S)
  pub pin_content : S → Bytes → Outcome (Bytes × S)

-- What `LocalFileAgent` uses of the file system. `ioutil.TempFile` makes a file under a new name.
pub record FileSystem : Type 0 where
  pub mkdir_all : Bytes → Outcome (Unit {0})
  pub temp_file : Bytes → Bytes → List (Bytes × Bytes) → Outcome Bytes
  pub write : Bytes → Bytes → Outcome (Unit {0})
  pub read_file : Bytes → Outcome Bytes

-- `LocalFileAgent`, and the files that it has made: their paths and contents, the last one last
pub record LocalFileAgent : Type 0 where
  pub api_key : Bytes
  pub api_secret : Bytes
  pub storage_base : Bytes
  pub files : List (Bytes × Bytes)

abbrev pub or_default : Bytes → Bytes → Bytes
or_default default [] = default
or_default default (c ∷ cs) = c ∷ cs

-- `fmt.Sprintf("/tmp/%s/%s", key, secret)`
abbrev pub storage_path : Bytes → Bytes → Bytes
storage_path key secret = codes "/tmp/" ++ (key ++ (codes "/" ++ secret))

module _ (fs : FileSystem) where
  -- `prepareStorage`
  unfoldable pub prepare_storage : LocalFileAgent → Outcome LocalFileAgent
  prepare_storage agent =
      let key = or_default (codes "agTestKey") agent.api_key in
      let secret = or_default (codes "agTestSecret") agent.api_secret in
      let base = storage_path key secret in
      do
        made ← check_error (fs.mkdir_all base)
        ok (record agent { api_key = key; api_secret = secret; storage_base = base })

  -- `(*LocalFileAgent).PinContent`
  unfoldable pub pin_content : LocalFileAgent → Bytes → Outcome (Bytes × LocalFileAgent)
  unfolding prepare_storage
  pin_content agent content = do
    prepared ← prepare_storage agent
    name ← check_error (fs.temp_file prepared.storage_base (codes "apron-") prepared.files)
    written ← check_error (fs.write name content)
    ok (name, record prepared { files = prepared.files ++ (name, content) ∷ [] })

  -- `(*LocalFileAgent).PinFile`
  unfoldable pub pin_file : LocalFileAgent → Bytes → Outcome (Bytes × LocalFileAgent)
  unfolding pin_content
  pin_file agent path = do content ← check_error (fs.read_file path); pin_content agent content

  -- `LocalFileAgent` as an `IpfsAgent`
  abbrev pub local_file_agent : IpfsAgent LocalFileAgent
  local_file_agent = record { pin_file = pin_file; pin_content = pin_content }

-- What `PinataService` uses: files, and the HTTP exchange that posts a file, up to the body of the
-- response; `string_field` is the field of a JSON object if it is there and a string.
pub record Pinata : Type 0 where
  pub temp_file : Outcome Bytes
  pub write : Bytes → Bytes → Outcome (Unit {0})
  pub open_file : Bytes → Outcome (Unit {0})
  pub new_request : Outcome (Unit {0})
  pub do_request : Bytes → Outcome (Unit {0})
  pub read_body : Bytes → Outcome Bytes
  pub unmarshal_json : Bytes → Outcome (Unit {0})
  pub string_field : Bytes → Bytes → Option Bytes
  -- `fmt.Errorf(s)`
  pub errorf : Bytes → Bytes

-- the last lines of `(*PinataService).PinFile`
unfoldable pub pinata_result : Pinata → Option Bytes → Option Bytes → Outcome Bytes
pinata_result p (some out) hash = err (p.errorf out)
pinata_result p none (some hash) = ok hash
pinata_result p none none = err (codes "pinata pin file failure")

-- `(*PinataService).PinFile`
unfoldable pub pinata_pin_file : Pinata → Bytes → Outcome Bytes
unfolding pinata_result
pinata_pin_file p path = do
  opened ← p.open_file path
  made ← p.new_request
  sent ← p.do_request path
  body ← p.read_body path
  parsed ← p.unmarshal_json body
  pinata_result p (p.string_field body (codes "error")) (p.string_field body (codes "IpfsHash"))

-- `(*PinataService).PinContent`: its errors have texts of their own
abbrev pub or_else {ℓ} : {A : Type ℓ} → Bytes → Outcome A → Outcome A
or_else e (ok a) = ok a
or_else e (err _) = err e
or_else e (panic z) = panic z

unfoldable pub pinata_pin_content : Pinata → Bytes → Outcome Bytes
unfolding pinata_pin_file
pinata_pin_content p content = do
  name ← or_else (codes "pinata pin content create tempfile failure") p.temp_file
  written ← or_else (codes "pinata pin content write failure") (p.write name content)
  pinata_pin_file p name
