-- ===== src/Lib.antt =====
-- Azkaban's web client: the JavaScript of azkaban-webserver/src/web/js/azkaban.
--
-- The server sends a flow as JSON: a list of nodes, each with an id, a type, a status and the ids
-- of the nodes that it runs after; a node of type "flow" embeds a flow. The client links these
-- objects into a graph, draws it, lets the user disable nodes of it and sends the result back.
--
-- Flow: the objects of a flow's data in a store. A reference is a number, an object literal that
--   serves as a map is the list of its entries in the order of their insertion (ids that read as
--   array indices, which an engine would enumerate first, and ids that are names of
--   Object.prototype are set aside).
-- Status: util/job-status.js.
-- GraphModel: model/svg-graph.js. processFlowData is process_flow_data, its three loops are
--   index_nodes, link_nodes (with link_deps and link) and adopt. The fuel bounds the nesting of
--   embedded flows; a flow that embeds none needs one.
-- Disable: the part of view/flow-execute-dialog.js that sets the flag `disabled` of nodes and
--   collects it. recurseAllAncestors and recurseAllDescendents are sweep along inNodes and
--   outNodes, with fuel for the depth of calls: more than the rank of the node in a graph without
--   cycles. Disable/Menu has the choices of the context menu.
-- Layout: prepareLayout of util/layout.js, the levels by the queue (level_loop) and the layers
--   (assign_layers). The order that the engine's sort gives the nodes is an argument, as is the
--   fuel for the queue, of which Layout/Loop shows that enough exists. The sorting of `node.in`
--   and the widths and heights of the layer's nodes are left out.
-- Layout/Dummies: the loop of layoutGraph over the edges, which puts a dummy node on each level that
--   an edge passes. A node of the layout is its id or the number of the dummy.
-- Layout/Spread: spreadLayerSmart of util/layout.js, and Layout/Vertical: spaceVertically. Numbers
--   are exact there: a length is a whole number of units of which any number make a pixel, and what
--   the code divides by two or by eight is in halves or eighths of the unit.
-- Logs: refresh of model/job-log.js and FlowLogView.handleUpdate of view/exflow.js. The server is
--   an argument; IsLogServer says what is relied on of its answers. The fuel of refresh bounds the
--   rounds of its loop: one for each byte that the log may still get, and one more, is enough.
-- Execution: view/exflow.js. updateGraph is update_graph, with fuel for the nesting of the update;
--   Execution/Poll is the page's timers and requests as steps. Requests are asynchronous, except
--   those for logs, and those that the buttons cause are left out. Execution/Buttons is about the
--   buttons of the page's head.
-- Options: changeFlowInfo, the table of parameters and getExecutionOptionData of
--   view/flow-execute-dialog.js, on a record of what the form's elements hold. The options
--   of the selects and the radio buttons of the page are an argument. An earlier execution is taken
--   into boxes and radio buttons that the user has not turned.
-- Durations: util/date.js. How the engine writes a number, and one with digits after the point, are
--   arguments.
-- TableSort: view/table-sort.js, with the engine's order of texts and its sorting as arguments; a
--   row may lack the cell that is sorted by.
-- Permissions: ChangePermissionView of view/project-permissions.js, on a record of the dialog's
--   elements. What the boxes of the page's table say is an argument, and so is `trim`. A box that is
--   dirty no longer follows its attribute, which is all that jQuery sets for attr("checked", true).
-- JobEdit: view/job-edit.js, the table of a job's properties. Rows are numbered in the order in
--   which they are made, and an event is the handlers that it comes to.
-- FlowPage: the tabs and the pages of executions of view/flow.js.
-- Selection: the selection in view/job-list.js and view/svg-graph.js, the menus of the list, and
--   expandFlow and collapseFlow without sizes and places. The fuel bounds the depth of
--   propagateExpansion: more than the embedded flows around a node.
-- StatusClasses: the classes of elements that say a status, as handleRemoveAllStatus of
--   view/svg-graph.js, statusUpdate of view/exflow.js and changeStatuses of view/job-list.js change
--   them. The fuel of changeStatuses bounds the nesting of embedded flows.
-- GraphBounds: calculateBounds and layoutExpandedFlowNode of view/svg-graph.js, on exact numbers.
-- Calendar: view/schedule-svg.js, the calendar of a week. The local midnight before a time, which the
--   engine's Date tells, is an argument; IsRegular says that all days have 24 hours, and IsLong that
--   one has 25. Items are addItem and processItem with depth for the calls of addItem: two are
--   enough where all days have 24 hours. The loops of processItem have fuel for a round for each
--   millisecond, since a period is one at least. Calendar/Columns has the columns and the boxes, and
--   Calendar/Texts the texts. The engine's sorting of a day's items is left out.
-- Sla: view/schedule-sla.js, on the rows of the dialog's table without the one with its button. The
--   engine's parseInt and its text of a number are arguments. The answer of the server is taken in by
--   success_handler, apart from init_from_sched, which asks for it.
-- TimeGraph: view/time-graph.js, up to the calls of Morris, which sorts the points by their time.
-- ExecutionList: updateJobRow and addNodeRow of view/flow-execution-list.js, on what the rows hold.
--   The engine's sorting of the nodes is an argument, and so is its time. The fuel bounds how deep
--   flows are nested. ExecutionList/Bars has the places and widths of bars by updateProgressBar, in
--   units that make them whole.
-- Navigate: util/svg-navigate.js, on the place, the scale and the zoom index of the element. The
--   engine's numbers are the record Numbers, and the times that the clock gives are arguments. The
--   model that a page can attach, and a box in the settings, which no page gives, are left out.
--   Navigate/Session has the events in any order, and Navigate/Arrival the timers of an animation.
-- FlowStats: updateStats and analyzeExecution of view/flow-stats.js with sizeStrToBytes of
--   util/common.js. What the engine does on texts is the record Engine, and the answers of the
--   server are an argument. The jobs are those that fetchJobs has sorted.
--
-- Not modelled: the vendored libraries (jQuery and its plugins, jQuery UI, Backbone, Underscore,
-- d3, Raphael, Morris, moment, Bootstrap, dust), which are not part of the program; the servers,
-- which are Java; the building of the page's elements, which is calls of jQuery; the requests of
-- util/ajax.js; util/svgutils.js, which handles elements; the averages and the sorting between the
-- passes of util/layout.js; and the other files of view/.
pub mod Prelude
pub mod Status
pub mod Flow
pub mod GraphModel
pub mod Disable
pub mod Layout
pub mod Logs
pub mod Execution
pub mod Options
pub mod Durations
pub mod TableSort
pub mod Permissions
pub mod JobEdit
pub mod FlowPage
pub mod FlowStats
pub mod Selection
pub mod StatusClasses
pub mod GraphBounds
pub mod Calendar
pub mod Sla
pub mod TimeGraph
pub mod ExecutionList
pub mod Navigate
