-- ===== src/Tests/OptionsV5.antt =====
-- A run of the checks for MQTT 5.
use mqtt_typed_client_next.Base.{ℕ, ◌*◌, ◌^◌, ◌<◌, true, false, not, ◌||◌, none, ok, ◌≡◌, refl}
use mqtt_typed_client_next.Base.Text.{Text, codes, is_empty}
use mqtt_typed_client_next.Client.Options.{second, resume_for, v5, ws, ConnectionOptions}
use mqtt_typed_client_next.Client.Options.Backend.{
  keep_alive_secs, base_backend_options, backend_transport,
}
use mqtt_typed_client_next.Client.Options.BackendV5.{
  MqttOptions, clean_start, IsSetting, is_clean, session_setting, to_backend_v5, to_backend_v5-ok,
}
use mqtt_typed_client_next.Tests.Connections.{some_url, some_options, features, library}

abbrev options : ConnectionOptions ℕ ℕ
options = record some_options { protocol = v5; session = resume_for (60 * second) }

abbrev backend : MqttOptions ℕ ℕ Text
backend = record {
  client_id = codes "b";
  broker = some_url.as_str;
  keep_alive = 30;
  session = clean_start false 60;
  transport = ws;
  credentials = options.credentials;
  last_will = none;
}

made : to_backend_v5 features library options ≡ ok backend
unfolding to_backend_v5 keep_alive_secs base_backend_options backend_transport session_setting
made = refl

to_backend_v5-ok_example :
    (options.protocol ≡ v5)
    × (30 * second ≡ options.keep_alive)
    × (30 < 2 ^ 16)
    × IsSetting options.session (clean_start false 60)
    × ((is_clean options.session || not (is_empty options.client_id)) ≡ true)
    × (codes "b" ≡ options.client_id)
to_backend_v5-ok_example = to_backend_v5-ok features library options backend made
