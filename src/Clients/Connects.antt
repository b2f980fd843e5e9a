-- ===== src/Clients/Connects.antt =====
-- What a connection (clients_connection) does to the entries of its address and of others in the table.
use opensync_platform_rdk.Common.{
  ℕ, ◌≡◌, ◌≢◌, ◌≤◌, ◌⊎◌, ◌∙◌, inl, inr, refl, ap, Option, none, some, Option-cases, if_pos, if_neg,
  CString, str_dec, strscpy, take_of_length-le, length, ℕ_discrete,
}
use opensync_platform_rdk.Common.Tree.{
  find, find-insert_self, find-insert_ne, find-adjust_self, find-adjust_ne,
}
use opensync_platform_rdk.Clients.Types.{Client, Hal, State, max_buffer}
use opensync_platform_rdk.Clients.{
  connection_active, connection_new, connection_moves, connection_known, connection_on,
}

module _ (hal : Hal) where
  -- The address has an entry, of this access point, or of one whose name the HAL does not tell.
  pub record Present (ap : ℕ) (o : Option Client) : Type 0 where
    pub client : Client
    pub is : o ≡ some client
    pub place : (client.ap_index ≡ ap) ⊎ (hal.get_ap_name client.ap_index ≡ none)

  -- What a connection does to the entries of its address and of others.
  pub record Connects (ap : ℕ) (mac : CString) (s t : State) : Type 0 where
    pub others :
        (m : CString)
        → mac ≢ m
        → find str_dec m t.connected_clients ≡ find str_dec m s.connected_clients
    pub own : Present ap (find str_dec mac t.connected_clients)

  new-Connects :
      (ap : ℕ) (mac key_id ifname : CString) (s : State)
      → length mac ≤ 17
      → find str_dec mac s.connected_clients ≡ none
      → Connects ap mac s (connection_new hal ap mac key_id ifname s)
  unfolding connection_new connection_active
  new-Connects ap mac key_id ifname s short e =
      let same : strscpy 18 mac ≡ mac = take_of_length-le 17 mac short in
      rw same (record {
        others = λ m ne.
            find-adjust_ne str_dec mac m _ _ ne
            ∙ find-insert_ne str_dec _ mac m _ s.connected_clients e ne;
        own = record {
          client = record { mac = mac; key_id = strscpy max_buffer key_id; ap_index = ap };
          is =
              find-adjust_self str_dec mac _ _ _
                (find-insert_self str_dec _ mac _ s.connected_clients e);
          place = inl refl;
        };
      })

  known-Connects :
      (ap : ℕ) (mac : CString) (c : Client) (key_id ifname : CString) (s : State)
      → c.ap_index ≡ ap
      → find str_dec mac s.connected_clients ≡ some c
      → Connects ap mac s (connection_known hal mac c key_id ifname s)
  unfolding connection_known connection_active
  known-Connects ap mac c key_id ifname s here e =
      elim (str_dec (strscpy 65 c.key_id) (strscpy 65 key_id)) [
        | yes same ↦ rw (if_pos _ same) (record {
          others = λ m ne. refl;
          own = record { client = c; is = e; place = inl here };
        })
        | no other ↦ rw (if_neg _ other) (record {
          others = λ m ne. find-adjust_ne str_dec mac m _ _ ne;
          own = record {
            client = record c { key_id = strscpy max_buffer key_id };
            is = find-adjust_self str_dec mac _ _ _ e;
            place = inl here;
          };
        })
      ]

  moves-Connects :
      (ap : ℕ) (mac : CString) (c : Client) (key_id ifname : CString) (s : State)
      → find str_dec mac s.connected_clients ≡ some c
      → Connects ap mac s (connection_moves hal ap mac c key_id ifname s)
  unfolding connection_moves connection_active
  moves-Connects ap mac c key_id ifname s e = elim (Option-cases (hal.get_ap_name c.ap_index)) [
    | inl f ↦
        rw (f, connection_moves)
          (record { others = λ m ne. refl; own = record { client = c; is = e; place = inr f } })
    | inr (old, f) ↦
        rw (f, connection_moves)
          (record {
            others =
                λ m ne. find-adjust_ne str_dec mac m _ _ ne ∙ find-adjust_ne str_dec mac m _ _ ne;
            own = record {
              client = record c { ap_index = ap; key_id = strscpy max_buffer key_id };
              is = find-adjust_self str_dec mac _ _ _ (find-adjust_self str_dec mac _ _ _ e);
              place = inl refl;
            };
          })
  ]

  pub on-Connects :
      (ap : ℕ) (mac key_id ifname : CString) (s : State)
      → length mac ≤ 17
      → Connects ap mac s (connection_on hal ap mac key_id ifname s)
  unfolding connection_on
  on-Connects ap mac key_id ifname s short =
      elim (Option-cases (find str_dec mac s.connected_clients)) [
        | inl e ↦ rw (e, connection_on) (new-Connects ap mac key_id ifname s short e)
        | inr (c, e) ↦ elim (ℕ_discrete c.ap_index ap) [
          | yes here ↦
              rw (e, connection_on, if_pos (ℕ_discrete c.ap_index ap) here)
                (known-Connects ap mac c key_id ifname s here e)
          | no away ↦
              rw (e, connection_on, if_neg (ℕ_discrete c.ap_index ap) away)
                (moves-Connects ap mac c key_id ifname s e)
        ]
      ]
