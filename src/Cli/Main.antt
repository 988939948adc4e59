-- ===== src/Cli/Main.antt =====
-- src/main.rs: the command line once it is parsed, and `main`. Which lines are blank, serde_json on
-- requests and answers and on values, SHA3-512 and the version are parameters.
use abir_guard.Base.{
  ℕ, Bool, true, false, Option, none, some, List, [], ◌∷◌, ◌++◌, Bytes, Str, str, bytes_eq,
  if◌then◌else◌, Result, ok,
}
use abir_guard.Base.Json.{Value}
use abir_guard.McpGateway
use abir_guard.McpGateway.{McpRequest, McpResponse, Draws}
use abir_guard.Cli
use abir_guard.Cli.{Host, Disk, Command, Lines}
use abir_guard.Cli.Shares
use abir_guard.Cli.Mldsa
use abir_guard.Cli.Server.{run_stdio_server}

pub data Commands : Type 0 where
  init : Str → Commands
  encrypt : Str → Str → Commands
  decrypt : Str → Str → Str → Commands
  list_keys clear_cache mldsa_list info : Commands
  delete_key : Str → Commands
  mcp_server : Str → Commands
  shamir_split : Str → ℕ → ℕ → Commands
  shamir_join : Lines → Commands
  mldsa_init : Option Str → Commands
  mldsa_sign : Str → Option Bytes → Commands
  mldsa_verify : Str → Bytes → Str → Commands

-- What `main` draws on beside the host.
pub record Process : Type 0 where
  pub sha3 : Bytes → Bytes
  pub value_to_string : Value → Str
  pub version : Str
  -- A line of stdin, `none` where it cannot be read.
  pub line : Option Bytes
  -- The requests on stdin, each with what it draws.
  pub input : List (Draws × Result Str Str)
  pub is_blank : Str → Bool
  pub from_str : Str → Result Str McpRequest
  pub to_string : McpResponse → Result Str Str

-- The passphrase is empty by default.
abbrev pub get_passphrase : Option Str → Str
get_passphrase none = []
get_passphrase (some key) = key

abbrev pub info_lines : Str → Lines
info_lines version =
    (str "Abir-Guard v" ++ version)
    ∷ str "PQC Agent Memory Vault"
    ∷ str "ML-KEM + AES-256-GCM"
    ∷ str "ML-DSA-65 Signatures"
    ∷ str "Argon2id Key Derivation"
    ∷ str "SHAMIR Secret Sharing"
    ∷ str "Security Watchdog: 200ms"
    ∷ str "Memory Zeroization: enabled"
    ∷ str "Disk Encryption: AES-256-GCM"
    ∷ []

abbrev pub usage_lines : Str → Lines
usage_lines version =
    (str "Abir-Guard v" ++ version)
    ∷ str "Usage: abir-guard [OPTIONS] <command>"
    ∷ []
    ∷ str "Options:"
    ∷ str "  -k, --key <PASSPHRASE>  Vault passphrase (or ABIR_GUARD_KEY env)"
    ∷ []
    ∷ str "Commands:"
    ∷ str "  init         Generate a new keypair"
    ∷ str "  encrypt      Encrypt data"
    ∷ str "  decrypt      Decrypt data"
    ∷ str "  list-keys    List stored keys"
    ∷ str "  delete-key   Delete a key"
    ∷ str "  clear-cache  Clear all vault data"
    ∷ str "  mcp-server   Start MCP server (stdio)"
    ∷ str "  shamir-split Split a secret into N shares"
    ∷ str "  shamir-join  Reconstruct a secret from shares"
    ∷ str "  mldsa-init   Generate ML-DSA signing keypair"
    ∷ str "  mldsa-sign   Sign data with ML-DSA"
    ∷ str "  mldsa-verify Verify ML-DSA signature"
    ∷ str "  mldsa-list   List stored ML-DSA keys"
    ∷ str "  info         Show version info"
    ∷ []

-- A command that uses no files.
abbrev pub without_files : Option (Result Lines Lines) → Command
without_files none disk = none
without_files (some outcome) disk = some (disk, outcome)

-- The lines of the server, unless a request has panicked.
abbrev pub served : List Str × Bool → Option (Result Lines Lines)
served (lines, true) = none
served (lines, false) = some (ok lines)

module _ (host : Host) (process : Process) where
  abbrev pub run_server : Str → Option (Result Lines Lines)
  run_server mode =
      if bytes_eq mode (str "stdio")
      then served (
          run_stdio_server host.crypto host.lossy process.is_blank process.from_str
            process.to_string process.input McpGateway.new)
      else some (ok [])

  abbrev pub message_or_line : Option Bytes → Option Bytes
  message_or_line none = process.line
  message_or_line (some message) = some message

  abbrev pub command_of : Str → Option Commands → Command
  command_of passphrase (some (init key_id)) = Cli.init host passphrase key_id
  command_of passphrase (some (encrypt key_id message)) = Cli.encrypt host passphrase key_id message
  command_of passphrase (some (decrypt key_id ciphertext nonce)) =
      Cli.decrypt host passphrase key_id ciphertext nonce
  command_of passphrase (some list_keys) = Cli.list_keys host passphrase
  command_of passphrase (some (delete_key key_id)) = Cli.delete_key host passphrase key_id
  command_of passphrase (some clear_cache) = Cli.clear_cache host
  command_of passphrase (some (mcp_server mode)) = without_files (run_server mode)
  command_of passphrase (some (shamir_split secret threshold shares)) =
      without_files (Shares.shamir_split host secret threshold shares)
  command_of passphrase (some (shamir_join texts)) = without_files (Shares.shamir_join host texts)
  command_of passphrase (some (mldsa_init key_id)) =
      Mldsa.mldsa_init host process.sha3 process.value_to_string passphrase key_id
  command_of passphrase (some (mldsa_sign key_id message)) =
      Mldsa.mldsa_sign host process.sha3 process.value_to_string passphrase key_id
        (message_or_line message)
  command_of passphrase (some (mldsa_verify key_id message signature)) =
      Mldsa.mldsa_verify host process.sha3 process.value_to_string passphrase key_id message
        signature
  command_of passphrase (some mldsa_list) =
      Mldsa.mldsa_list host process.sha3 process.value_to_string passphrase
  command_of passphrase (some info) = without_files (some (ok (info_lines process.version)))
  command_of passphrase none = without_files (some (ok (usage_lines process.version)))

  abbrev pub main : Option Str → Option Commands → Command
  main key command = command_of (get_passphrase key) command
