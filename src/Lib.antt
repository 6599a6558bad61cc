-- ===== src/Lib.antt =====
-- A model of the Open OCPP simulator: charge points that are driven over MQTT and talk OCPP to a
-- central system.
--
-- A charge point runs a control loop over its connectors (src/chargepoint/SimulatedChargePoint.cpp).
-- In each iteration it reads the status of every connector from the Open OCPP stack, computes the
-- setpoints, copies the car's data from the MQTT manager, runs the state machine of each connector,
-- which notifies the stack, and writes the consumption into the connector's meter. The MQTT manager
-- takes messages about cars and id tags, the events handler takes the requests of the central system,
-- and both leave flags that the loop looks at. The stack reads and writes the configuration.
--
-- Common: lists, slots of vectors by connector number, texts as lists of bytes, Boolean tests.
-- Ocpp: the enumerations and calls of the Open OCPP stack, an external library. `Stack` is its
--     answers, which may depend on the calls made so far; the steady clock is among them.
-- Float: `float` as a parameter, with the laws of IEEE 754 that the theorems use, and numbers in
--     hundredths as an instance.
-- Connector: src/chargepoint/ConnectorData.h.
-- Meter: src/chargepoint/MeterSimulator.cpp. `update` is the timer's callback.
-- Mqtt: src/chargepoint/mqtt/MqttManager.cpp. Topics has the path of a topic, Messages is
--     `mqttMessageReceived`, with the JSON library as a parameter.
-- Handler: src/chargepoint/ocpp/ChargePointEventsHandler.cpp and .h. Requests has availability,
--     remote start and remote stop, Measures has `getMeterValue`, Limits the local limitations,
--     Transfers the commands for files, diagnostics and logs, Answers the short handlers.
-- Sim: the control loop. World is the state and the monad of the loop, IdTag has
--     `isValidIdTagPresent` and `isTransactionStopCondition`, Step is the switch over the statuses,
--     Setpoints is `computeSetpoints`, Consumption is `computeConsumption`, Loop puts an iteration
--     together. Permitted says, apart from the code, which calls are allowed, Transactions reads the
--     transactions from the calls.
-- Config: src/chargepoint/ocpp/OcppConfig.cpp, with the table of keys and the file as a parameter.
--     Getters has the getters and the setter of OcppConfig.h, ChargePointConfig.h and
--     src/chargepoint/mqtt/MqttConfig.h.
-- Paho: src/mqtt_client/private/PahoMqttClient.cpp, with the Paho library as a parameter. Callbacks has
--     what the library calls.
-- Launcher: src/launcher/CommandHandler.cpp, with what it does to files and processes as a list of
--     effects. Maps is `std::map`, Commands is `mqttMessageReceived`.
-- Certificates: src/chargepoint/ocpp/ChargePointEventsHandler.cpp, the certificates. Library is what it
--     uses of the Open OCPP library, with the laws that hold there, Files has the working directory as
--     a list of entries and its lists and counts, Install the reception, Delete the deletion,
--     Signing the requests. Again has sequences of requests.
-- Startup: src/chargepoint/main.cpp. Arguments has the loop on the arguments, Settings what is written
--     into the configuration, Main puts them together; Launch is the command line of the launcher.
--     LauncherMain is src/launcher/main.cpp up to its connection loop.
-- Session: `start` of src/chargepoint/mqtt/MqttManager.cpp and src/launcher/main.cpp, the connection
--     loops over the client of Paho. `Plan` is what differs between the two programs.
--     Publishing has the messages that the manager publishes. Tracked and Presented put the programs
--     together: what one publishes on a topic, and what the other one makes of it.
-- System: the start of src/chargepoint/SimulatedChargePoint.cpp, and a step relation that interleaves the
--     iterations of the control loop with messages, requests and the timer of the meters. Metering and
--     Transactions say what this means for a charging session, Races what a message does within a
--     pass.
-- Application: `loop` of the same file, and the loop of `start` around it, with the wait for the
--     registration, the publication of the data, the sleeps and the restart after a reset. What
--     `start` does after its loop, to stop the meters and to wait for the MQTT thread, is left out.
-- Tests: the theorems at concrete inputs.
--
-- An access outside a vector is `none`. So are, where they are modelled, an exception, a read of the
-- null pointer and a use of `m_mqtt` that points to no client. The arithmetic of the meter takes the cast
-- of a `float` to `int64_t`, and the product after it, as numbers without bounds.
-- A connector's number is an unsigned int that counts from 1, so `slot` takes 1 away, and number 0
-- is out of bounds. Loops over vectors are recursion over lists or over the number of entries left.
-- The loop on the arguments runs on fuel, of which each argument uses one at most. The connection
-- loops run on fuel too; they end when another thread ends the application, which is a function of the
-- number of reads, and as much fuel as reads until then is enough. The loops of Application run on
-- fuel, of which each sleep uses one. Casts to unsigned int are written out modulo 2^32. Each method
-- that takes a mutex is one step; the loop's state is what one thread sees between two steps of
-- another, and in Application the other threads act during the sleeps.
--
-- Not modelled: printing and sleeping, threads and timers, two threads within one call of the MQTT
-- client, the text of JSON messages, the installation of firmware, the supervisor, and the
-- libraries. The shell that reads the command line of the launcher is a parameter.
pub mod Common
pub mod Ocpp
pub mod Float
pub mod Connector
pub mod Meter
pub mod Mqtt
pub mod Handler
pub mod Sim
pub mod Config
pub mod Paho
pub mod Launcher
pub mod Certificates
pub mod Startup
pub mod Session
pub mod System
pub mod Application
mod Tests
