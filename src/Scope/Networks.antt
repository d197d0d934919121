-- ===== src/Scope/Networks.antt =====
-- What engine/scope.py uses of Python's `ipaddress`: a network is its version, the number of its first
-- address, and the length of its prefix. Reading and printing addresses, stripping white space and the
-- classes of addresses are parameters.
use Prim.Native.Char.{code}
use Prim.Native.String.{[] as empty_text, ◌∷◌ as ◌∷ₜ◌}
use wirescope.Prelude.{
  ◌<◌, ℕ, ◌+◌, ◌-◌, ◌*◌, ◌^◌, ◌≤◌, ◌≡◌, ◌⊎◌, String, Bool, false, ◌&&◌, ◌||◌, Option, some, leb,
  ltb, ◌==◌, if◌then◌else◌,
}

pub record Network : Type 0 where
  pub version : ℕ
  pub network_address : ℕ
  pub prefixlen : ℕ

pub record Address : Type 0 where
  pub version : ℕ
  pub value : ℕ

abbrev pub max_prefixlen : ℕ → ℕ
max_prefixlen version = if version == 6 then 128 else 32

unfoldable pub num_addresses : Network → ℕ
num_addresses n = 2 ^ (max_prefixlen n.version - n.prefixlen)

-- The network's addresses lie within the other's; of the same version, as the callers check.
unfoldable pub subnet_of : Network → Network → Bool
unfolding num_addresses
subnet_of a b =
    leb b.network_address a.network_address
    && leb (a.network_address + num_addresses a) (b.network_address + num_addresses b)

-- `ip_network(f"{address}/{address.max_prefixlen}")`
abbrev pub host_network : Address → Network
host_network a = record {
  version = a.version;
  network_address = a.value;
  prefixlen = max_prefixlen a.version;
}

pub record Ipaddress : Type 0 where
  -- `ip_network(value, strict=True)`, `ip_address(value)`, `ip_interface(value).network`
  pub ip_network : String → Option Network
  pub ip_address : String → Option Address
  pub ip_interface : String → Option Network
  pub show_network : Network → String
  pub show_address : Address → String
  pub strip : String → String
  pub is_unspecified : Network → Bool
  pub is_multicast : Network → Bool
  pub is_loopback : Network → Bool
  pub is_link_local : Network → Bool

-- A network as `ipaddress` makes it: one of the two versions, an address of 32 or 128 bits, and no
-- host bits.
pub record IsNetwork (n : Network) : Type 0 where
  pub version : (n.version ≡ 4) ⊎ (n.version ≡ 6)
  pub prefix : n.prefixlen ≤ max_prefixlen n.version
  pub block : ℕ
  pub aligned : n.network_address ≡ block * num_addresses n
  pub bounded : n.network_address < 2 ^ max_prefixlen n.version

pub record IsAddress (a : Address) : Type 0 where
  pub version : (a.version ≡ 4) ⊎ (a.version ≡ 6)
  pub bounded : a.value < 2 ^ max_prefixlen a.version

-- What the validator relies on: whatever is read is a network or an address.
pub record Reads (ip : Ipaddress) : Type 0 where
  pub networks : (s : String) (n : Network) → ip.ip_network s ≡ some n → IsNetwork n
  pub addresses : (s : String) (a : Address) → ip.ip_address s ≡ some a → IsAddress a
  pub interfaces : (s : String) (n : Network) → ip.ip_interface s ≡ some n → IsNetwork n

-- `"/" in value`
unfoldable pub has_slash : String → Bool
has_slash empty_text = false
has_slash (c ∷ₜ s) = code c == 47 || has_slash s

-- An address of a network.
abbrev pub contains : ℕ → ℕ → Network → Bool
contains version address n =
    (n.version == version)
    && (leb n.network_address address && ltb address (n.network_address + num_addresses n))
