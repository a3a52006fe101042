-- ===== src/Publisher/Register.antt =====
-- class ServicePublisher: mdns_tinysvcmdns_register.
use lightning_cast_endpoint.Base.{
  ℕ, ◌-◌, Bool, true, false, not, ◌&&◌, ◌||◌, List, [], ◌∷◌, ◌++◌, Option, none, some, ltb, ◌==◌,
  if◌then◌else◌, ℤ, pos, negsuc, Outcome, done, thrown, undefined, stuck, codes, same_text, length,
  take, drop,
}

-- An interface: IFF_LOOPBACK, and `ifa_addr` (`none` for NULL) with its family and IPv4 address.
pub record Address : Type 0 where
  pub family : ℕ
  pub ip : ℕ

pub record Interface : Type 0 where
  pub loopback : Bool
  pub address : Option Address

-- AF_INET
abbrev pub af_inet : ℕ
af_inet = 2

-- The calls of the mDNS library, in order; `register_svc` with the instance name, the type, the port and the texts of
-- the TXT record.
pub data Call : Type 0 where
  set_hostname : List ℕ → ℕ → Call
  add_rr : List ℕ → ℕ → Call
  register_svc : List ℕ → List ℕ → ℕ → List (List ℕ) → Call

abbrev pub lacks_local : List ℕ → Bool
lacks_local hostname =
    ltb (length hostname) (length (codes ".local"))
    || not (same_text (drop (length hostname - 6) hostname) (codes ".local"))

abbrev pub with_local : List ℕ → List ℕ
with_local hostname = if lacks_local hostname then hostname ++ codes ".local" else hostname

-- strncpy takes 99 bytes at most; the buffer has room for ".local" and the final zero behind them.
unfoldable pub local_hostname : List ℕ → List ℕ
local_hostname name = with_local (take 99 name)

-- The IPv4 address of an interface that is no loopback and has one.
abbrev pub main_ip : Interface → Option ℕ
main_ip i = elim i.address [
  | none ↦ none
  | some a ↦ if not i.loopback && a.family == af_inet then some a.ip else none
]

-- The first loop: the first such interface, and the list behind it.
unfoldable pub find_main : List Interface → Option (ℕ × List Interface)
find_main [] = none
find_main (i ∷ interfaces) = elim (main_ip i) [
  | some ip ↦ some (ip, interfaces)
  | none ↦ find_main interfaces
]

-- The second loop: here `ifa_addr` is read without a test.
unfoldable pub add_others : List ℕ → List Interface → Outcome (List Call)
add_others hostname [] = done []
add_others hostname (i ∷ interfaces) =
    let others : Outcome (List Call) = add_others hostname interfaces in
    if i.loopback then others else (elim i.address [
      | none ↦ undefined
      | some a ↦
          if a.family == af_inet
          then (elim others [
            | done calls ↦ done (add_rr hostname a.ip ∷ calls)
            | thrown ↦ thrown
            | undefined ↦ undefined
            | stuck ↦ stuck
          ])
          else others
    ])

abbrev pub service_type : List ℕ
service_type = codes "_lightningcast._tcp" ++ codes ".local"

abbrev pub txt_records : List (List ℕ)
txt_records = codes "ver=1.0" ∷ []

-- `starts` says whether mdnsd_start returns a server, `interfaces` what getifaddrs returns. The result
-- is the return value with the calls that were made.
unfoldable pub mdns_register : List ℕ → ℕ → Bool → Option (List Interface) → Outcome (ℤ × List Call)
mdns_register ap1name port false interfaces = done (negsuc 0, [])
mdns_register ap1name port true none = done (negsuc 0, [])
mdns_register ap1name port true (some interfaces) =
    let hostname = local_hostname (codes "LightningCastDeviceSample") in
    elim (find_main interfaces) [
      | none ↦ done (negsuc 0, [])
      | some (ip, rest) ↦ elim (add_others hostname rest) [
        | done calls ↦ done (
          pos 0,
          set_hostname hostname ip
              ∷ (calls ++ register_svc ap1name service_type port txt_records ∷ []),
        )
        | thrown ↦ thrown
        | undefined ↦ undefined
        | stuck ↦ stuck
      ]
    ]
