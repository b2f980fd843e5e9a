-- ===== src/Clients/Types.antt =====
-- The data of src/lib/target/src/clients.c, what it asks of others, and its table of security modes.
use opensync_platform_rdk.Common.{ℕ, Bool, List, [], ◌∷◌, Option, none, some, CString, bytes}
use opensync_platform_rdk.HalQueue.{Queue}

-- client_t
pub record Client : Type 0 where
  pub mac : CString
  pub key_id : CString
  pub ap_index : ℕ

-- hal_cb_entry_t, with the two fields of the HAL's structure that the code reads.
pub record CbEntry : Type 0 where
  pub ssid_index : ℕ
  pub cli_mac_address : CString
  pub cli_active : Bool

-- client_security_mode_map_t
pub record SecurityMode : Type 0 where
  pub security : CString
  pub wpa_key_mgmt : Option CString
  pub pairwise_cipher : Option CString

-- A call of g_rops.op_client: the fields of schema_Wifi_Associated_Clients that are set, the
-- interface, and the flag.
pub record Update : Type 0 where
  pub mac : CString
  pub key_id : CString
  pub wpa_key_mgmt : Option CString
  pub pairwise_cipher : Option CString
  pub state : CString
  pub ifname : CString
  pub connected : Bool

-- What the code asks of others: the Wi-Fi HAL (`none` is an answer other than RETURN_OK), the
-- interface map of the core, the key ids that radio.c caches and the build's configuration.
pub record Hal : Type 0 where
  pub get_ap_name : ℕ → Option CString
  pub get_ap_security_mode : ℕ → Option CString
  pub get_multi_psk_client_key : ℕ → CString → Option CString
  pub get_associated_devices : ℕ → Option (List CString)
  pub format_mac : CString → CString
  pub unmap_ifname : CString → CString
  pub cached_key_id : ℕ → CString
  pub multi_psk_support : Bool

-- The statics of the file, and the calls of op_client so far, oldest first.
pub record State : Type 0 where
  pub connected_clients : List (CString × Client)
  pub hal_cb_queue : Queue CbEntry
  pub updates : List Update

-- WIFIHAL_MAX_MACSTR
abbrev pub max_macstr : ℕ
max_macstr = 18

-- WIFIHAL_MAX_BUFFER
abbrev pub max_buffer : ℕ
max_buffer = 64

abbrev wep : CString → SecurityMode
wep security = record {
  security = security;
  wpa_key_mgmt = none;
  pairwise_cipher = some (bytes "wep");
}

abbrev wpa : CString → CString → CString → SecurityMode
wpa security mgmt cipher = record {
  security = security;
  wpa_key_mgmt = some mgmt;
  pairwise_cipher = some cipher;
}

-- The table `csmm` of clients_update.
abbrev pub csmm : List SecurityMode
csmm =
    wep (bytes "WEP-64")
    ∷ wep (bytes "WEP-128")
    ∷ wpa (bytes "WPA-Personal") (bytes "wpa-psk") (bytes "wpa-tkip")
    ∷ wpa (bytes "WPA-Enterprise") (bytes "wpa-eap") (bytes "wpa-tkip")
    ∷ wpa (bytes "WPA2-Personal") (bytes "wpa-psk") (bytes "rsn-ccmp")
    ∷ wpa (bytes "WPA2-Enterprise") (bytes "wpa-eap") (bytes "rsn-ccmp")
    ∷ wpa (bytes "WPA-WPA2-Personal") (bytes "wpa-psk") (bytes "rsn-ccmp")
    ∷ wpa (bytes "WPA-WPA2-Enterprise") (bytes "wpa-eap") (bytes "rsn-ccmp")
    ∷ []
