-- ===== src/Mqtt.antt =====
-- internal/mqttclient: the MQTT wire format that the client writes and reads.
pub mod Result
pub mod Length
pub mod Packet
pub mod Connect
