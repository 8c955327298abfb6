-- ===== src/Lib.antt =====
-- A verification library for the programs of this repository that dispatch drones: the sensors of
-- cmd/sensor, the brokers of cmd/broker, the bases of cmd/base, the drones of cmd/drone, the
-- dashboards of cmd/webdash and cmd/dashboard, the tests of cmd/testrunner, and the packages under
-- internal/ that they share.
--
-- A sensor reports to a broker, which makes a request of what it reports and sends it to every
-- base. A base keeps the requests in a priority queue, which the bases gossip about, and picks with a
-- timer the most urgent pending request and an idle drone. It asks the other bases for a lock on
-- the request, sends the drone if all grant it, and takes the request out of the queue when the
-- drone reports that the mission is done. Bases and drones tell each other by heartbeats that they
-- are alive. A base takes the missions of a lost drone back and hands drones of its own to bases
-- with fewer; a drone whose base is dead registers with another one.
--
-- Models is internal/models/types.go: structs as records, the string types as strings. A time is a
-- number of nanoseconds, a position an integer. A handler that calls time.Now() takes the time.
-- Lamport is internal/lamport/clock.go, over int64 with its wrap-around.
-- RequestHeap is requestHeap of internal/queue/queue.go with container/heap: Up and Down are its
-- loops, on fuel: the index for Up, the length of the heap for Down, which is enough since each
-- round halves or doubles the index. Queue is PriorityQueue of the same file, every method.
-- Queue.Op lists its methods as one type.
-- State is cmd/base/state.go, with association lists for maps: a range over a map has no order, so
-- that what picks one of several takes a choice. State.WellFormed lists its methods as one type.
-- Alerts is internal/alerts/alerts.go without its output.
-- BaseNode is cmd/base. Dispatcher, DroneHandler, Balance, Servers and Heartbeat are the functions
-- of dispatcher.go, drone_handler.go, servers.go and heartbeat.go; Step is what main.go starts:
-- servers, timers and goroutines as events, in any order. A handler is one step, and so is each
-- part of a goroutine between two waits for the network: each method of the queue, the state and
-- the clock holds its mutex, and the interleavings of methods inside one handler are not modelled.
-- DroneNode is cmd/drone/main.go in the same way, with the network as a function from what has
-- been sent to the answer.
-- Sensor is cmd/sensor/main.go: a round of each of its loops is one step.
-- Broker is cmd/broker/main.go: a connection from a sensor is one step. Broker.Delivery puts a broker
-- and a base together.
-- WebDash is cmd/webdash/aggregator.go: what the dashboard keeps of each sector, and its picture
-- of all.
-- Network is internal/network: the lines of tcp.go with the limit of bufio.Scanner, and the
-- datagrams of udp.go with its buffer. What a socket does is an argument, Peer.
-- Settings is what every main.go reads from its environment, and how it takes lists apart.
-- WebServer is the rest of cmd/webdash: routes and the clearing of queues of main.go, and the hub
-- of web sockets of wsserver.go.
-- Terminal is cmd/dashboard/main.go, with the push loop of handleDashConn in servers.go: what a
-- screen shows, without padding and colours.
-- TestRunner is cmd/testrunner/main.go: each test is a function of the order in which its
-- goroutines come to the mutex.
-- System is several bases and the locks they ask each other for, their steps in any order. In it
-- no LOCK_RELEASE arrives and no mission ends: `missions` keeps the orders that drones have accepted.
-- Common holds the helpers: lists measured by native numbers, strings as Go compares them,
-- integers, and maps. Letter case is changed on ASCII letters only, which is what the IDs and
-- addresses are made of.
-- Tests runs the models on concrete data.
--
-- encoding/json is a parameter, Json, Library or Codec: the text of a value, and the value of a
-- text or an error. os.Getenv is the parameter Env. What a theorem needs of them is a condition of
-- the theorem. math.Sqrt and math.Pow in the travel time of a drone are a parameter too.
--
-- Not modelled: the sockets themselves, the page of cmd/webdash and the upgrade to a web socket,
-- the layout of what is printed, UTF-8 characters that are cut in the middle, and the deployment
-- scripts.
pub mod Common
pub mod Models
pub mod Lamport
pub mod RequestHeap
pub mod Queue
pub mod State
pub mod Alerts
pub mod BaseNode
pub mod DroneNode
pub mod Broker
pub mod Sensor
pub mod WebDash
pub mod Network
pub mod Settings
pub mod WebServer
pub mod Terminal
pub mod TestRunner
pub mod System
pub mod Tests
