-- ===== src/Lib.antt =====
-- aioros: the pure core of a ROS client library and master in Python.
--
-- The program. A ROS master (aioros/master) keeps a tree of parameters and a registry of nodes,
-- topics and services, and serves both over XML-RPC; a change makes it queue calls of the nodes
-- concerned. A node (aioros/_node) registers itself there, resolves names (aioros/_utils), and
-- talks to other nodes over XML-RPC (aioros/xmlrpc) and TCPROS; its action client
-- (aioros/_node/_action) follows a goal through the status, feedback and result messages of an
-- action server.
--
-- The files.
-- Common, with its children: names passed on from the libraries, Python's `str` as a list of code
--   points, Boolean tests, lists, and results that may be an exception.
-- Dict, Value: Python's `dict` with text keys, and XmlRpcTypes of aioros/xmlrpc/_protocol/_common.py.
-- Resolve: aioros/_utils/_resolve.py. Parts has split and join, Canonical their laws, Names what
--   resolve_name and normalize_namespace return, Valid the names that resolve_name lets pass.
-- Master.ParamCache: aioros/master/_param_cache.py. Paths has the tree as a partial function from
--   paths to values, and __getitem__ and __setitem__ against it; Deletion has __delitem__; Listing
--   and Leaves have keys; Search has search.
-- Master.Node, Master.Registry: aioros/master/_registry.py. The registry is a record with the fields
--   of the class. Topics and Params hold the public operations; Updates, Notices and Ignored say who
--   is told what; Members, Dropping and Types say what the tables hold; Backing, Consistency and
--   Reachable carry an invariant over every sequence of requests.
-- Master.Api: aioros/master/_api.py and aioros/master/_master.py. A method takes the master's state
--   to a new state and a reply or an exception. Parameters, Services and Topics are about methods
--   called one after another.
-- Action: aioros/abc/_action.py (States), aioros/_node/_action/_state_machine.py (States, Machine)
--   and aioros/_node/_action/_client.py (Tracking). Messages of the three topics are events, and
--   `track` takes them in the order in which they arrive.
-- Tcpros: the connection header of aioros/_node/_tcpros/_protocol.py. Words has the four bytes of a
--   length, Fields one field, Sorted the order of the fields, RoundTrip and Ends the whole header;
--   Checks has the checks of aioros/_node/_tcpros/_utils.py, Data the frames of messages and errors,
--   Data.Stream the loop of a subscriber that reads messages, and Data.Received what it reads.
-- Xmlrpc: aioros/xmlrpc. Values are element trees of tag, text and children, as py2xml and xml2py of
--   _protocol/_common.py write and read them, a ValueError where lxml does not take a text; Schema is
--   validate_schema with _protocol/xmlrpc.rng. Sendable says which values survive the way, Admitted
--   that the schema admits them; RoundTrip and Bounds are about py2xml and then xml2py.
--   Faults has _protocol/_exceptions.py. Remote has requests and responses (_protocol/_client.py and
--   _protocol/_server.py) and the call from _client.py to the handler of _server.py; Bodies and
--   Calls are about this call.
-- Master.Api.Calls: the master's methods by name, as a remote call reaches them.
-- Node: aioros/_node. ParamCache is _param_cache.py; Client, Handle and Handle.Methods are _api.py, with
--   the methods of MasterApiClient, NodeApiClient and NodeApiHandle; Uris has the addresses of
--   _tcpros/_utils.py. Subscriber is _tcpros/_topic_subscriber.py: a ConnectedPublisher is shared by a
--   dict and its task, so that the publishers are a store with ids; Connecting chooses the connection.
--   Publisher is _tcpros/_topic_publisher.py, Service is _tcpros/_service_server.py and
--   _tcpros/_service_client.py. Registry, State and Creation are _node.py: what a node has made, its
--   parameters over the cache and the master, and the methods create_*; Routing has its
--   handle_tcpros. Notices has the calls that the master makes of a node, Node.serve of
--   aioros/master/_registry.py.
-- The modules called Examples run the definitions on small inputs.
--
-- How the state is written. A method that mutates returns the new state. A Python set is the list
--   of its members in the order of arrival, and a dict the list of its items. A value that is
--   stored or queued is a snapshot: later changes of a shared dict are not seen through it. A float
--   is the text that `repr` gives. What a node's queue holds is what was put in it. Between two
--   changes of the state no handler of the master awaits, so that requests are handled one after
--   another.
--
-- Bounds and fuel. `keys` of the parameter tree is a loop over a worklist, on fuel: each round takes
--   one value off, so that one more than the number of values in the tree is enough. `decode_header` is
--   on fuel as well: each round takes at least a byte off, so that one more than the number of bytes
--   is enough, and so is the loop that reads messages. The loop of a service is on fuel with one more
--   than the bytes to come; a connection that is not persistent needs one round. Everything else is
--   structural recursion.
--
-- Parameters. The numbers of actionlib_msgs/GoalStatus are given to the action client's definitions as
--   `goal_state_of`, the process id to getPid, and Python's UTF-8 codec to the header of TCPROS, with
--   the laws of Fields.IsCodec. Python's conversions of numbers, dates and bytes, the `repr` of an
--   exception, the texts that lxml takes and those of XML Schema's data types are a record `Python`,
--   with the laws of Xmlrpc.Sendable.IsPython. Of the bytes after the header of a connection, those
--   that anyio's receiver has left in the client are `unread` of Node.Routing. A proxy is a function
--   `call` from a method's name, its arguments and the state of the other end; where it is made of the
--   other end's own methods, calls outside their annotated types go to a parameter `other`. Messages
--   and services come with what their classes write and read.
--
-- Not modelled: sockets and HTTP, XML as text and lxml's limits on it, `multicall`, the tasks of a
--   node and their cancellation, the waits for peers, the Serializer's numbering, logging, simulated time, the
--   bindings of tf2 (aioros/tf2), start-up, and the functions of _resolve.py that read sys.argv and
--   os.environ.
pub mod Common
pub mod Action
pub mod Dict
pub mod Value
pub mod Resolve
pub mod Master
pub mod Tcpros
pub mod Xmlrpc
pub mod Node
