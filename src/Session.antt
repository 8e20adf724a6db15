-- ===== src/Session.antt =====
-- src/main.c, `run_session` and `restore_network_state`, with `proto_rndis_create`, `rndis_drv_destroy` and
-- `proto_driver_validate`: the order in which a tethering session takes what it needs and gives it back.
-- What the calls give is in `Outcomes`; what is done is the resulting list.
pub mod Release
pub mod Network
pub mod Outcome
pub mod Loop
pub mod Watch
pub mod OneShot
mod Runs
use android_usb_tether_macos.Dhcp.Lease.{
  Lease, default_gateway, default_dns1, default_dns2, default_static_ip,
}
use android_usb_tether_macos.Wire.{Bytes}
use android_usb_tether_macos.Config.{strlcpy, default_netmask}
use android_usb_tether_macos.Prelude.{
  ℕ, ◌∷◌, [], ◌++◌, Bool, true, false, pos, negsuc, none, some, ◌≡◌, suc, zero, List, Option, ◌&&◌,
  if◌then◌else◌, not,
}

pub data Resource : Type 0 where
  driver_memory : Resource
  state_memory : Resource
  usb_device : Resource
  utun_interface : Resource
  network : Resource
  bridge : Resource
  threads : Resource

-- The words of `ipc_server_send_state` that a session sends.
pub data StateWord : Type 0 where
  connected : StateWord
  disconnected_word : StateWord

pub data Act : Type 0 where
  took : Resource → Act
  gave : Resource → Act
  configured_with : Bytes → Bytes → Bytes → Act
  set_dns : Bytes → Bytes → Act
  restored_dns : Act
  registered_service : Act
  unregistered_service : Act
  set_default_route : Bytes → Act
  deleted_routes : Act
  announced : ℕ → Act
  told : StateWord → Act

-- `proto_driver_t`: which of its pointers are set.
pub record ProtoDriver : Type 0 where
  pub name : Bool
  pub init : Bool
  pub get_mac : Bool
  pub wrap_frame : Bool
  pub unwrap_data : Bool
  pub keepalive : Bool
  pub get_usb_filters : Bool
  pub destroy : Bool

unfoldable pub proto_driver_validate : ProtoDriver → Bool
proto_driver_validate drv =
    drv.name && (drv.init && (drv.get_mac && (drv.wrap_frame && (drv.unwrap_data && drv.destroy))))

-- The two results of `calloc`; the driver, if it was made, and what was done.
unfoldable pub proto_rndis_create : Bool → Bool → Option ProtoDriver × List Act
proto_rndis_create false _ = (none, [])
proto_rndis_create true false = (none, took driver_memory ∷ gave driver_memory ∷ [])
proto_rndis_create true true = (
  some (record {
    name = true;
    init = true;
    get_mac = true;
    wrap_frame = true;
    unwrap_data = true;
    keepalive = true;
    get_usb_filters = true;
    destroy = true;
  }),
  took driver_memory ∷ took state_memory ∷ [],
)

abbrev pub rndis_drv_destroy : List Act
rndis_drv_destroy = gave state_memory ∷ gave driver_memory ∷ []

pub record Outcomes : Type 0 where
  pub driver_allocated : Bool
  pub state_allocated : Bool
  pub found : Bool
  pub init_ok : Bool
  pub mac_ok : Bool
  pub dhcp : Option Lease
  pub utun_ok : Bool
  pub configured : Bool
  pub lost_device : Bool
  pub g_running : Bool

-- The arguments of `run_session`, and whether there is an IPC server.
pub record Arguments : Type 0 where
  pub no_route : Bool
  pub no_dns : Bool
  pub static_ip : Bytes
  pub static_gw : Bytes
  pub static_mask : Bytes
  pub ipc : Bool

abbrev is_empty : Bytes → Bool
is_empty [] = true
is_empty (b ∷ bs) = false

-- The addresses: given, leased, or the defaults where the lease failed.
unfoldable pub choose_addresses : Arguments → Option Lease → Lease
choose_addresses args dhcp =
    if not (is_empty args.static_ip)
    then record {
      ip = strlcpy args.static_ip 16;
      gateway = strlcpy (if is_empty args.static_gw then default_gateway else args.static_gw) 16;
      netmask = strlcpy args.static_mask 16;
      dns1 = strlcpy default_dns1 16;
      dns2 = strlcpy default_dns2 16;
    }
    else elim dhcp [
      | none ↦ record {
        ip = strlcpy default_static_ip 16;
        gateway = strlcpy default_gateway 16;
        netmask = strlcpy default_netmask 16;
        dns1 = strlcpy default_dns1 16;
        dns2 = strlcpy default_dns2 16;
      }
      | some lease ↦ record {
        ip = strlcpy lease.ip 16;
        gateway = strlcpy lease.gateway 16;
        netmask = strlcpy lease.netmask 16;
        dns1 = strlcpy lease.dns1 16;
        dns2 = strlcpy lease.dns2 16;
      }
    ]

-- `restore_network_state`, with the flags `g_no_route`, `g_no_dns` and `g_network_bound`.
unfoldable pub restore_network_state : Bool → Bool → Bool → List Act
restore_network_state no_route no_dns false = []
restore_network_state no_route no_dns true =
    (if no_route then [] else deleted_routes ∷ [])
    ++ (unregistered_service ∷ ((if no_dns then [] else restored_dns ∷ []) ++ (gave network ∷ [])))

-- Steps 7 and 8: the DNS servers, the service and the routes.
unfoldable pub bind_network : Bool → Bool → Lease → List Act
bind_network no_route no_dns a =
    took network
    ∷ ((if no_dns
          then (if no_route then [] else registered_service ∷ [])
          else set_dns a.dns1 a.dns2 ∷ registered_service ∷ [])
        ++ (if no_route then [] else set_default_route a.gateway ∷ []))

-- The state that the server sends, if there is one.
abbrev pub tell : Bool → StateWord → List Act
tell ipc w = if ipc then told w ∷ [] else []

-- From the configured interface on: the session itself, and its end.
unfoldable pub bridge_session : Bool → Bool → Bool → Lease → ℕ → List Act
bridge_session no_route no_dns ipc a our_ip_n =
    bind_network no_route no_dns a
    ++ (announced our_ip_n
        ∷ (tell ipc connected
            ++ (took bridge
                ∷ took threads
                ∷ gave threads
                ∷ gave bridge
                ∷ (tell ipc disconnected_word
                    ++ (restore_network_state no_route no_dns true
                        ++ (gave utun_interface ∷ gave usb_device ∷ rndis_drv_destroy))))))

abbrev pub reconnect_if : Bool → ℕ
reconnect_if g_running = if g_running then 1 else 0

-- `inet_pton` is the parameter: the address in memory, if the text is one.
module _ (inet_pton : Bytes → Option ℕ) (args : Arguments) (o : Outcomes) where
  -- From the address on: the interface.
  unfoldable pub utun_session : Lease → List Act × ℕ
  utun_session a = elim (inet_pton a.ip) [
    | none ↦ (gave usb_device ∷ rndis_drv_destroy, reconnect_if o.g_running)
    | some our_ip_n ↦
        if o.utun_ok
        then (if o.configured
            then (
              took utun_interface
                  ∷ configured_with a.ip a.gateway a.netmask
                  ∷ bridge_session args.no_route args.no_dns args.ipc a our_ip_n,
              reconnect_if (o.lost_device && o.g_running),
            )
            else (
              took utun_interface
                  ∷ configured_with a.ip a.gateway a.netmask
                  ∷ gave utun_interface
                  ∷ gave usb_device
                  ∷ rndis_drv_destroy,
              reconnect_if o.g_running,
            ))
        else (gave usb_device ∷ rndis_drv_destroy, reconnect_if o.g_running)
  ]

  -- With a driver: the device, the protocol and the addresses.
  unfoldable pub device_session : List Act × ℕ
  device_session =
      if o.found
      then (if o.init_ok && o.mac_ok
          then (let (acts, ret) = utun_session (choose_addresses args o.dhcp) in
              (took usb_device ∷ acts, ret))
          else (took usb_device ∷ gave usb_device ∷ rndis_drv_destroy, reconnect_if o.g_running))
      else (rndis_drv_destroy, reconnect_if o.g_running)

  -- The test of the driver that was made, and the session with it.
  unfoldable pub driver_session : Option ProtoDriver × List Act → List Act × ℕ
  driver_session (none, acts) = (acts, reconnect_if o.g_running)
  driver_session (some drv, acts) =
      if proto_driver_validate drv
      then (acts ++ device_session.0, device_session.1)
      else (acts ++ rndis_drv_destroy, reconnect_if o.g_running)

  unfoldable pub run_session : List Act × ℕ
  run_session = driver_session (proto_rndis_create o.driver_allocated o.state_allocated)
